-- ===== src/Validate/Strings.antt =====
-- What the check of a user's string says of its characters.
use theynix.Base.{
  ℕ, zero, suc, ◌+◌, ◌-◌, ◌≤◌, ◌<◌, ◌≡◌, ◌≢◌, inl, inr, true, ◌||◌, ◌==◌, some, arith, ltb, leb,
  Bool-cases, Option-cases,
}
use theynix.Validate.{prot_read, validate_chars, validate_page, validate_user_string}
use theynix.AddressSpace.{addr_to_page, vmem_1_base, vmem_1_limit}
use theynix.Validate.Pages.{Allowed}
use theynix.VMem.{PageTable}

-- The string at `str` ends after n characters, and the user may read all of them and the end.
abbrev pub Readable : (memory : ℕ → ℕ) (pages : PageTable) (str n : ℕ) → Type 0
Readable memory pages str n =
    (memory (str + n) ≡ 0)
    × ((i : ℕ) → i < n → memory (str + i) ≢ 0)
    × ((i : ℕ) → i ≤ n → Allowed prot_read pages (str + i))

validate_chars-Readable :
    (fuel str : ℕ) (memory : ℕ → ℕ) (pages : PageTable)
    → Allowed prot_read pages str
    → validate_chars fuel str memory pages ≡ some true
    → (n : ℕ) × Readable memory pages str n
unfolding validate_chars
validate_chars-Readable zero str memory pages first ok = absurd (ground arith)
validate_chars-Readable (suc fuel) str memory pages first ok = elim (Bool-cases (memory str == 0)) [
  | inl ended ↦ (
    0,
    (
      ground arith,
      λ i h. absurd (omega arith),
      λ i h. let same : str + i ≡ str = omega arith in rw same first,
    ),
  )
  | inr more ↦
      let next_page = validate_page (addr_to_page (str + 1 - vmem_1_base)) prot_read pages in
      let second : Allowed prot_read pages (str + 1) = elim (Option-cases next_page) [
        | inl outside ↦ absurd (ground arith)
        | inr (b, found) ↦ elim (Bool-cases b) [
          | inl good ↦ ground arith
          | inr bad ↦ absurd (ground arith)
        ]
      ] in
      let (n, (end, chars, allowed)) =
        validate_chars-Readable fuel (str + 1) memory pages second (ground arith) in
      (
        n + 1,
        (
          let same : str + (n + 1) ≡ str + 1 + n = omega arith in rw same end,
          λ i h. elim (Bool-cases (i == 0)) [
            | inl now ↦ let same : str + i ≡ str = ground arith in rw same (ground arith)
            | inr later ↦
                let same : str + i ≡ str + 1 + (i - 1) = ground arith in
                rw same (chars (i - 1) (ground arith))
          ],
          λ i h. elim (Bool-cases (i == 0)) [
            | inl now ↦ let same : str + i ≡ str = ground arith in rw same first
            | inr later ↦
                let same : str + i ≡ str + 1 + (i - 1) = ground arith in
                rw same (allowed (i - 1) (ground arith))
          ],
        ),
      )
]

-- If ValidateUserString accepts a string, the string ends, and the user may read the page of each of
-- its characters and of its end.
pub validate_user_string-Readable :
    (str : ℕ) (memory : ℕ → ℕ) (pages : PageTable)
    → validate_user_string str memory pages ≡ some true
    → (n : ℕ) × Readable memory pages str n
unfolding validate_user_string
validate_user_string-Readable str memory pages ok =
    let first_page = validate_page (addr_to_page (str - vmem_1_base)) prot_read pages in
    elim (Bool-cases (leb vmem_1_limit str || ltb str vmem_1_base)) [
      | inl out ↦ absurd (ground arith)
      | inr within ↦ elim (Option-cases first_page) [
        | inl outside ↦ absurd (ground arith)
        | inr (b, found) ↦ elim (Bool-cases b) [
          | inr bad ↦ absurd (ground arith)
          | inl good ↦
              validate_chars-Readable (vmem_1_limit - str) str memory pages (ground arith)
                (ground arith)
        ]
      ]
    ]
