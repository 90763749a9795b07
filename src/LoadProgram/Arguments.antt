-- ===== src/LoadProgram/Arguments.antt =====
-- The argument list on the new stack.
use mathlib.Core.Path.{subst}
use theynix.Base.{
  append_assoc, append-nil, ℕ, ◌+◌, ◌*◌, ◌^◌, ◌≤◌, ◌<◌, ◌≡◌, ◌∙◌, sym, true, List, [], ◌∷◌, ◌++◌,
  arith, length, update,
}
use theynix.LoadProgram.{
  build_argument_list, is_loadable, size_of_args, start_of_strings, start_of_words, write_args,
  LoadInfo,
}
use theynix.LoadProgram.Layout.{IsStack, is_loadable-IsStack}

-- From `cpp` on there is a pointer to each string, where the strings follow each other from `cp` on,
-- and two NULL pointers.
abbrev pub Points : (words : ℕ → ℕ) → (cpp cp : ℕ) → List (List ℕ) → Type 0
Points words cpp cp [] = (words cpp ≡ 0) × (words (cpp + 4) ≡ 0)
Points words cpp cp (arg ∷ args) =
    (words cpp ≡ cp) × Points words (cpp + 4) (cp + length arg + 1) args

-- The strings with their addresses.
abbrev pub placed : (cp : ℕ) → List (List ℕ) → List (ℕ × List ℕ)
placed cp [] = []
placed cp (arg ∷ args) = (cp, arg) ∷ placed (cp + length arg + 1) args

-- No string begins below `low` or ends, with its NUL, above `high`.
abbrev pub Within : (low high : ℕ) → List (ℕ × List ℕ) → Type 0
Within low high [] = Unit
Within low high ((cp, arg) ∷ ss) = (low ≤ cp) × (cp + length arg + 1 ≤ high) × Within low high ss

placed-Within :
    (low high cp : ℕ) (args : List (List ℕ))
    → low ≤ cp
    → cp + size_of_args args ≤ high
    → Within low high (placed cp args)
unfolding size_of_args
placed-Within low high cp [] a b = tt
placed-Within low high cp (arg ∷ args) a b =
    (a, omega arith, placed-Within low high (cp + length arg + 1) args (omega arith) (omega arith))

write_args-same :
    (args : List (List ℕ)) (cpp cp a : ℕ) (words : ℕ → ℕ) (strings : List (ℕ × List ℕ))
    → a < cpp
    → (write_args args cpp cp words strings).0 a ≡ words a
unfolding write_args
write_args-same [] cpp cp a words strings lt = ground arith
write_args-same (arg ∷ args) cpp cp a words strings lt =
    write_args-same args (cpp + 4) (cp + length arg + 1) a (update words cpp cp)
      (strings ++ ((cp, arg) ∷ [])) (omega arith)
    ∙ ground arith

write_args-Points :
    (args : List (List ℕ)) (cpp cp : ℕ) (words : ℕ → ℕ) (strings : List (ℕ × List ℕ))
    → Points (write_args args cpp cp words strings).0 cpp cp args
unfolding write_args
write_args-Points [] cpp cp words strings = (ground arith, ground arith)
write_args-Points (arg ∷ args) cpp cp words strings = (
  write_args-same args (cpp + 4) (cp + length arg + 1) cpp (update words cpp cp)
        (strings ++ ((cp, arg) ∷ [])) (omega arith)
      ∙ ground arith,
  write_args-Points args (cpp + 4) (cp + length arg + 1) (update words cpp cp)
      (strings ++ ((cp, arg) ∷ [])),
)

write_args-placed :
    (args : List (List ℕ)) (cpp cp : ℕ) (words : ℕ → ℕ) (strings : List (ℕ × List ℕ))
    → (write_args args cpp cp words strings).1 ≡ strings ++ placed cp args
unfolding write_args
write_args-placed [] cpp cp words strings = sym (append-nil strings)
write_args-placed (arg ∷ args) cpp cp words strings =
    write_args-placed args (cpp + 4) (cp + length arg + 1) (update words cpp cp)
      (strings ++ ((cp, arg) ∷ []))
    ∙ append_assoc strings ((cp, arg) ∷ []) (placed (cp + length arg + 1) args)

-- The new stack of a program that passes the checks. At its lowest word, which is aligned to 8 bytes
-- and where the stack pointer points, stands argc; above it stand a pointer to each argument in
-- order, and two NULL pointers; and above these and room of 32 words stand the arguments one after
-- the other, each with its NUL, up to the end of region 1. The stack pointer is in the lowest page
-- of the stack, and at least one page lies between it and the data. It is assumed that the sizes fit
-- an int.
pub build_argument_list-IsStack :
    (li : LoadInfo) (args : List (List ℕ))
    → size_of_args args + (length args + 35) * 4 + 8 ≤ 2 ^ 31
    → is_loadable li (size_of_args args) (length args) ≡ true
    → let size = size_of_args args in
      let cp = start_of_strings size in
      let cpp = start_of_words size (length args) in
      let (words, strings) = build_argument_list args in
      IsStack li size (length args)
      × (words cpp ≡ length args)
      × Points words (cpp + 4) cp args
      × (strings ≡ placed cp args)
      × Within cp 0x200000 strings
unfolding build_argument_list
build_argument_list-IsStack li args fits ok =
    let size = size_of_args args in
    let cp = start_of_strings size in
    let cpp = start_of_words size (length args) in
    let stack = is_loadable-IsStack li size (length args) fits ok in
    let first = update (λ a. 0) cpp (length args) in
    let strings = write_args-placed args (cpp + 4) cp first [] in
    (
      stack,
      write_args-same args (cpp + 4) cp cpp first [] (omega arith) ∙ ground arith,
      write_args-Points args (cpp + 4) cp first [],
      strings,
      subst (λ ss. Within cp 0x200000 ss) (sym strings)
          (placed-Within cp 0x200000 cp args (omega arith) (omega (arith, stack.0))),
    )
