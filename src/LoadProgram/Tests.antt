-- ===== src/LoadProgram/Tests.antt =====
-- A small program with two arguments.
use theynix.Base.{
  ℕ, ◌+◌, ◌-◌, ◌≤◌, ◌<◌, ◌≡◌, refl, true, false, none, some, List, [], ◌∷◌, ◌++◌, length, take,
  drop, arith,
}
use theynix.LoadProgram.{
  build_argument_list, is_loadable, size_of_args, stack_pages, start_of_strings, start_of_words,
  LoadInfo, Loaded, kill, load_program,
}
use theynix.PMem.{success, error}
use theynix.VMem.Free.{frames_of}
use theynix.VMem.Map.{MapsAs}
use theynix.VMem.{PageTable, create_region_1_page_table}
use theynix.VMem.Samples.{IsQueue, queue_allocator}
use theynix.LoadProgram.Load.{load_program-branches}
use theynix.LoadProgram.Layout.{IsStack}
use theynix.LoadProgram.Arguments.{Points, Within, build_argument_list-IsStack, placed}

-- Two pages of text, three of data and one of bss.
abbrev small_program : LoadInfo
small_program = record {
  entry = 0x100040;
  t_vaddr = 0x100000;
  t_npg = 2;
  id_vaddr = 0x104000;
  id_npg = 3;
  ud_npg = 1;
}

abbrev two_args : List (List ℕ)
two_args = (108 ∷ 115 ∷ []) ∷ (45 ∷ []) ∷ []

build_argument_list-IsStack_example :
    let cp = start_of_strings 5 in
    let cpp = start_of_words 5 2 in
    let (words, strings) = build_argument_list two_args in
    IsStack small_program 5 2
    × (words cpp ≡ 2)
    × Points words (cpp + 4) cp two_args
    × (strings ≡ placed cp two_args)
    × Within cp 0x200000 strings
unfolding size_of_args is_loadable stack_pages
build_argument_list-IsStack_example =
    build_argument_list-IsStack small_program two_args (omega arith) refl

abbrev eight_frames : List ℕ
eight_frames = 5 ∷ 9 ∷ 11 ∷ 13 ∷ 17 ∷ 19 ∷ 23 ∷ 29 ∷ []

eight_free : IsQueue eight_frames eight_frames
eight_free = (refl, (refl, (refl, (refl, (refl, (refl, (refl, (refl, (refl, tt)))))))), omega arith)

-- The program is loaded where nothing was, and its file can be read.
load_program-branches_example :
    let al = queue_allocator in
    let zs = eight_frames ++ frames_of create_region_1_page_table 0 128 in
    let k = stack_pages 5 2 in
    let load =
      load_program al
        (some small_program)
        true
        true
        two_args
        (create_region_1_page_table, eight_frames) in
    (load_program al none true true two_args (create_region_1_page_table, eight_frames)
      ≡ some (error, none, (create_region_1_page_table, eight_frames)))
    × (is_loadable small_program 5 2 ≡ false
        → load ≡ some (error, none, (create_region_1_page_table, eight_frames)))
    × (is_loadable small_program 5 2 ≡ true
        → (length zs < 2 + 4 + k
            → (t' : PageTable) × (s' : List ℕ) × (load ≡ some (error, none, (t', s')))
              × ((q : ℕ) → 128 - k ≤ q → q < 128 → (t' q).valid ≡ false))
          × (2 + 4 + k ≤ length zs
              → (true ≡ false
                  → (t' : PageTable) × (s' : List ℕ) × (load ≡ some (kill, none, (t', s'))))
                × (true ≡ true
                    → (t' : PageTable) × (s' : List ℕ) × (l : Loaded) × (load
                        ≡ some (success, some l, (t', s')))
                      × IsQueue s' (drop k (drop 4 (drop 2 zs)))
                      × MapsAs t' 5 0 (take 2 zs)
                      × MapsAs t' 3 2 (take 4 (drop 2 zs))
                      × MapsAs t' 3 (128 - k) (take k (drop 4 (drop 2 zs)))
                      × (l.pc ≡ 0x100040)
                      × (l.user_brk_page ≡ 6)
                      × (l.lowest_user_stack_page ≡ 128 - k))))
unfolding size_of_args frames_of
load_program-branches_example =
    load_program-branches queue_allocator small_program true true two_args
      create_region_1_page_table eight_frames eight_frames eight_free eight_free.1 eight_free.2
      (omega arith) (omega arith)
