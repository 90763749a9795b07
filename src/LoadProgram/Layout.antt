-- ===== src/LoadProgram/Layout.antt =====
-- The plan of the new stack, when it passes the checks.
use theynix.Base.{ℕ, ◌+◌, ◌-◌, ◌*◌, ◌%◌, ◌^◌, ◌≤◌, ◌<◌, ◌≡◌, inl, inr, true, arith, leb, Bool-cases}
use theynix.LoadProgram.{
  data_end_page, is_loadable, new_stack_pointer, stack_pages, start_of_strings, start_of_words,
  LoadInfo,
}

-- Where nothing wraps, the strings end at the top of region 1 and the words end below them.
stack-plain :
    (size argcount : ℕ)
    → size + (argcount + 35) * 4 + 8 ≤ 0x200000
    → (start_of_strings size + size ≡ 0x200000)
      × (start_of_words size argcount + (argcount + 35) * 4 ≤ start_of_strings size)
      × (start_of_strings size ≤ start_of_words size argcount + (argcount + 35) * 4 + 7)
      × (start_of_words size argcount % 8 ≡ 0)
      × (new_stack_pointer size argcount ≡ start_of_words size argcount)
unfolding start_of_strings start_of_words new_stack_pointer
stack-plain size argcount small = (omega arith, omega arith, omega arith, omega arith, omega arith)

pages-plain :
    (size argcount sp : ℕ)
    → new_stack_pointer size argcount ≡ sp
    → sp ≤ 0x200000
    → (stack_pages size argcount * 8192 + sp ≤ 0x200000 + 8191)
      × (0x200000 ≤ stack_pages size argcount * 8192 + sp)
unfolding stack_pages
pages-plain size argcount sp e small = rw e (omega arith, omega arith)

-- Where it would wrap, there are more pages than region 1 has.
pages-wrapped :
    (size argcount : ℕ)
    → size + (argcount + 35) * 4 + 8 ≤ 2 ^ 31
    → 0x200000 < size + (argcount + 35) * 4 + 8
    → 128 ≤ stack_pages size argcount
unfolding stack_pages new_stack_pointer start_of_words start_of_strings
pages-wrapped size argcount fits big = omega arith

-- A stack that fits: the strings end at the top of region 1, the argc, argv and envp words and the
-- room behind them end below the strings, the stack pointer is aligned and in the lowest page of the
-- stack, and a page is left between that page and the data.
abbrev pub IsStack : LoadInfo → (size argcount : ℕ) → Type 0
IsStack li size argcount =
    let cp = start_of_strings size in
    let cpp = start_of_words size argcount in
    let sp = new_stack_pointer size argcount in
    let bottom : ℕ = 128 - stack_pages size argcount in
    (cp + size ≡ 0x200000)
    × (cpp + 4 * (argcount + 35) ≤ cp)
    × (cpp % 8 ≡ 0)
    × (sp ≡ cpp)
    × (0x100000 + bottom * 8192 ≤ sp)
    × (sp < 0x100000 + (bottom + 1) * 8192)
    × (data_end_page li < bottom)

pub is_loadable-IsStack :
    (li : LoadInfo) (size argcount : ℕ)
    → size + (argcount + 35) * 4 + 8 ≤ 2 ^ 31
    → is_loadable li size argcount ≡ true
    → IsStack li size argcount
unfolding is_loadable
is_loadable-IsStack li size argcount fits ok =
    elim (Bool-cases (leb (size + (argcount + 35) * 4 + 8) 0x200000)) [
      | inl small ↦
          let (a, b, c, d, e) = stack-plain size argcount (ground arith) in
          let (f, g) = pages-plain size argcount (start_of_words size argcount) e (omega arith) in
          let below : stack_pages size argcount + data_end_page li < 128 = ground arith in
          (a, omega arith, d, e, omega arith, omega arith, omega arith)
      | inr big ↦ absurd (ground (arith, pages-wrapped size argcount fits))
    ]
