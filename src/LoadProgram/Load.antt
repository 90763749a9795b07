-- ===== src/LoadProgram/Load.antt =====
-- What LoadProgram does, by the checks, the free frames and the reads of the file.
use theynix.Base.{
  ℕ, ◌+◌, ◌-◌, ◌*◌, ◌/◌, ◌^◌, ◌≤◌, ◌<◌, ◌≡◌, ◌∙◌, inl, inr, refl, ap, Bool, true, false, ◌&&◌, ◌==◌,
  Option, none, some, List, [], ◌∷◌, ◌++◌, ℤ, arith, Bool-cases, length, take, drop, length-take,
  IsDistinct, AllBelow,
}
use theynix.PMem.{Pte, success, error}
use theynix.VMem.{PageTable, free_region_1_page_table, change_prot_region_1_pages}
use theynix.VMem.Allocator.{FrameAllocator}
use theynix.VMem.Map.{MapsAs}
use theynix.VMem.Prot.{change_prot_region_1_pages-sets}
use theynix.VMem.Free.{frames_of, free_region_1_page_table-append}
use theynix.LoadProgram.{
  LoadInfo, Loaded, kill, map_program, text_page, data_page, data_end_page, load_program,
  is_loadable, size_of_args, stack_pages, new_stack_pointer,
}
use theynix.LoadProgram.Layout.{is_loadable-IsStack}
use theynix.LoadProgram.Pages.{three, three_map, three_fail, MapsAs-same}

MapsAs-prot :
    (t u : PageTable) (prot prot' p : ℕ) (ys : List ℕ)
    → ((q : ℕ) → p ≤ q → q < p + length ys → u q ≡ record (t q) { prot = prot' })
    → MapsAs t prot p ys
    → MapsAs u prot' p ys
MapsAs-prot t u prot prot' p [] same m = tt
MapsAs-prot t u prot prot' p (y ∷ ys) same m = (
  same p (omega arith) (omega arith) ∙ ap (λ (e : Pte). record e { prot = prot' }) m.0,
  MapsAs-prot t u prot prot' (p + 1) ys (λ q a b. same q (omega arith) (omega arith)) m.1,
)

MapsAs-valid :
    (t : PageTable) (prot p q : ℕ) (ys : List ℕ)
    → MapsAs t prot p ys
    → p ≤ q
    → q < p + length ys
    → (t q).valid ≡ true
MapsAs-valid t prot p q [] m a b = absurd (omega arith)
MapsAs-valid t prot p q (y ∷ ys) m a b = elim (Bool-cases (q == p)) [
  | inl at ↦ let same : q ≡ p = ground arith in ap (λ k. (t k).valid) same ∙ ap (λ e. e.valid) m.0
  | inr later ↦ MapsAs-valid t prot (p + 1) q ys m.1 (ground arith) (omega arith)
]

-- The PCB's fields for a program.
abbrev loaded_of : LoadInfo → (size argcount : ℕ) → Loaded
loaded_of li size argcount =
    let sp = new_stack_pointer size argcount in
    record {
      sp = sp;
      pc = li.entry;
      lowest_user_stack_page = sp / 2 ^ 13 - 128;
      user_brk_page = data_end_page li;
    }

lowest_page :
    (sp page : ℕ)
    → 0x100000 + page * 8192 ≤ sp
    → sp < 0x100000 + (page + 1) * 8192
    → sp / 2 ^ 13 - 128 ≡ page
lowest_page sp page lo hi = omega arith

module _ (al : FrameAllocator) (li : LoadInfo) (r1 r2 : Bool) (args : List (List ℕ)) (t : PageTable)
    (s : al.State) where
  abbrev load : Option (ℤ × Option Loaded × (PageTable × al.State))
  load = load_program al (some li) r1 r2 args (t, s)

  load_refused :
      is_loadable li (size_of_args args) (length args) ≡ false → load ≡ some (error, none, (t, s))
  unfolding load_program
  load_refused no_room = rw no_room refl

  module _ (ok : is_loadable li (size_of_args args) (length args) ≡ true) (t1 : PageTable)
      (s1 : al.State) where
    load_without_frames :
        map_program al li (stack_pages (size_of_args args) (length args)) (t, s)
          ≡ some (error, (t1, s1))
        → load ≡ some (error, none, (t1, s1))
    unfolding load_program
    load_without_frames run = rw ok (rw run refl)

    load_unread :
        map_program al li (stack_pages (size_of_args args) (length args)) (t, s)
          ≡ some (success, (t1, s1))
        → (r1 && r2) ≡ false
        → load ≡ some (kill, none, (t1, s1))
    unfolding load_program
    load_unread run unread = rw ok (rw run (rw unread refl))

    load_done :
        (t2 : PageTable)
        → map_program al li (stack_pages (size_of_args args) (length args)) (t, s)
          ≡ some (success, (t1, s1))
        → (r1 && r2) ≡ true
        → change_prot_region_1_pages (text_page li) li.t_npg 5 t1 ≡ some t2
        → load ≡ some (success, some (loaded_of li (size_of_args args) (length args)), (t2, s1))
    unfolding load_program
    load_done t2 run read prot = rw ok (rw run (rw read (rw prot refl)))

program_maps :
    (al : FrameAllocator) (li : LoadInfo) (k : ℕ) (t t0 : PageTable) (s s0 : al.State)
    → free_region_1_page_table al (t, s) ≡ (t0, s0)
    → map_program al li k (t, s)
      ≡ three al (text_page li) li.t_npg (data_page li) (li.id_npg + li.ud_npg) (128 - k) k t0 s0
unfolding map_program
program_maps al li k t t0 s s0 e = rw e refl

-- LoadProgram. A file that cannot be loaded, or a program that leaves no page between its stack and
-- its data, is refused with ERROR and nothing is changed. From then on region 1 is given up: with
-- too few frames, its own included, the call returns ERROR too, without a stack, and if the file
-- cannot be read it returns KILL. Otherwise it succeeds: text, data and stack are mapped to the
-- next free frames, the text readable and executable, the rest readable and writable, the break is
-- the end of the data, the lowest page of the stack is that of the PCB, and the process starts at
-- the entry of the file. It is assumed that the text ends below the data, that no frame of the old
-- region 1 is free or at two pages, and that the sizes fit an int.
pub load_program-branches :
    (al : FrameAllocator) (li : LoadInfo) (r1 r2 : Bool) (args : List (List ℕ)) (t : PageTable)
    (s : al.State) (xs : List ℕ)
    → al.Frees s xs
    → IsDistinct (xs ++ frames_of t 0 128)
    → AllBelow (2 ^ 24) (xs ++ frames_of t 0 128)
    → text_page li + li.t_npg ≤ data_page li
    → size_of_args args + (length args + 35) * 4 + 8 ≤ 2 ^ 31
    → let zs = xs ++ frames_of t 0 128 in
      let k = stack_pages (size_of_args args) (length args) in
      let d = li.id_npg + li.ud_npg in
      let load = load_program al (some li) r1 r2 args (t, s) in
      (load_program al none r1 r2 args (t, s) ≡ some (error, none, (t, s)))
      × (is_loadable li (size_of_args args) (length args) ≡ false
          → load ≡ some (error, none, (t, s)))
      × (is_loadable li (size_of_args args) (length args) ≡ true
          → (length zs < li.t_npg + d + k
              → (t' : PageTable) × (s' : al.State) × (load ≡ some (error, none, (t', s')))
                × ((q : ℕ) → 128 - k ≤ q → q < 128 → (t' q).valid ≡ false))
            × (li.t_npg + d + k ≤ length zs
                → ((r1 && r2) ≡ false
                    → (t' : PageTable) × (s' : al.State) × (load ≡ some (kill, none, (t', s'))))
                  × ((r1 && r2) ≡ true
                      → (t' : PageTable) × (s' : al.State) × (l : Loaded) × (load
                          ≡ some (success, some l, (t', s')))
                        × al.Frees s' (drop k (drop d (drop li.t_npg zs)))
                        × MapsAs t' 5 (text_page li) (take li.t_npg zs)
                        × MapsAs t' 3 (data_page li) (take d (drop li.t_npg zs))
                        × MapsAs t' 3 (128 - k) (take k (drop d (drop li.t_npg zs)))
                        × (l.pc ≡ li.entry)
                        × (l.user_brk_page ≡ data_page li + d)
                        × (l.lowest_user_stack_page ≡ 128 - k))))
unfolding load_program
load_program-branches al li r1 r2 args t s xs f dist below apart fits =
    let zs = xs ++ frames_of t 0 128 in
    let size = size_of_args args in
    let k = stack_pages size (length args) in
    let d = li.id_npg + li.ud_npg in
    let a = li.t_npg in
    let (t0, s0, run0, f0, cleared) = free_region_1_page_table-append al t s xs dist below f in
    let blank : (q : ℕ) → q < 128 → (t0 q).valid ≡ false = λ q b. ground (arith, cleared q) in
    let whole = program_maps al li k t t0 s s0 run0 in
    (
      refl,
      (λ no_room. load_refused al li r1 r2 args t s no_room),
      λ ok.
          let (e1, e2, e3, e4, e5, e6, e7) = is_loadable-IsStack li size (length args) fits ok in
          (
            (λ few.
                let (t', s', run, no_stack) =
                  three_fail al (text_page li) a (data_page li) d (128 - k) k t0 s0 zs apart
                    (omega arith) (omega arith) blank f0 few in
                (
                  t',
                  s',
                  load_without_frames al li r1 r2 args t s ok t' s' (whole ∙ run),
                  no_stack,
                )),
            λ enough.
                let (t1, s1, run, (left, text, middle, stack, others)) =
                  three_map al (text_page li) a (data_page li) d (128 - k) k t0 s0 zs apart
                    (omega arith) (omega arith) blank f0 enough in
                let sizes = length-take a zs in
                let (t2, prot, inside, outside) =
                  change_prot_region_1_pages-sets (text_page li) a 5 t1 (omega arith) (λ q lo hi.
                    MapsAs-valid t1 3 (text_page li) q (take a zs) text lo (omega arith)) in
                (
                  (λ unread.
                      (t1, s1, load_unread al li r1 r2 args t s ok t1 s1 (whole ∙ run) unread)),
                  λ read. (
                    t2,
                    s1,
                    loaded_of li size (length args),
                    load_done al li r1 r2 args t s ok t1 s1 t2 (whole ∙ run) read prot,
                    left,
                    MapsAs-prot t1 t2 3 5 (text_page li) (take a zs)
                        (λ q lo hi. inside q lo (omega arith)) text,
                    MapsAs-same t1 t2 3 (data_page li) (take d (drop a zs))
                        (λ q lo hi. outside q (inr (omega arith))) middle,
                    MapsAs-same t1 t2 3 (128 - k) (take k (drop d (drop a zs)))
                        (λ q lo hi. outside q (inr (omega arith))) stack,
                    refl,
                    refl,
                    lowest_page (new_stack_pointer size (length args)) (128 - k) e5 e6,
                  ),
                ),
          ),
    )
