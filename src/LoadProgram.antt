-- ===== src/LoadProgram.antt =====
-- LoadProgram.c: the checks, the plan of the new stack, the pages of the new program, and the
-- argument list on its stack. The file is an argument: what LoadInfo finds in it, and whether the
-- text and the data can be read from it. The bytes of text and data have no part in the model. The
-- kernel is built with LINUX defined.
pub mod Layout
pub mod Arguments
pub mod Pages
pub mod Load
mod Tests
use mathlib.Core.Option
use theynix.Base.{
  ℕ, zero, suc, ◌+◌, ◌-◌, ◌*◌, ◌/◌, ◌%◌, ◌^◌, ◌≤◌, ◌<◌, ◌≡◌, ◌≢◌, ◌∙◌, ◌⊎◌, inl, inr, refl, sym, ap,
  Bool, true, false, not, ◌&&◌, ◌||◌, ◌==◌, Option, none, some, List, [], ◌∷◌, ◌++◌, ℤ, pos, negsuc,
  arith, if◌then◌else◌, ltb, leb, Bool-cases, Option-cases, length, take, drop, update, eqb_ℤ,
}
use theynix.PMem.{prot_read_write, success, error}
use theynix.VMem.{
  change_prot_region_1_pages, free_region_1_page_table, map_new_region_1_pages, PageTable,
  num_pages_reg_1,
}
use theynix.VMem.Allocator.{FrameAllocator}
use theynix.AddressSpace.{vmem_1_base, vmem_1_limit, addr_to_page}

-- The fields of `struct load_info` that the pages depend on.
pub record LoadInfo : Type 0 where
  pub entry : ℕ
  pub t_vaddr : ℕ
  pub t_npg : ℕ
  pub id_vaddr : ℕ
  pub id_npg : ℕ
  pub ud_npg : ℕ

-- The error code between LoadProgram and its caller.
abbrev pub kill : ℤ
kill = negsuc 1336

abbrev pub initial_stack_frame_size : ℕ
initial_stack_frame_size = 0

abbrev pub post_argv_null_space : ℕ
post_argv_null_space = 0x20

abbrev pub max_pt_len : ℕ
max_pt_len = 128

-- Subtraction of addresses, in 32 bits.
abbrev pub sub_32 : ℕ → ℕ → ℕ
sub_32 a b = (a + 2 ^ 32 - b) % 2 ^ 32

-- The bytes of the arguments, each with its NUL.
pub size_of_args : List (List ℕ) → ℕ
size_of_args [] = 0
size_of_args (arg ∷ args) = length arg + 1 + size_of_args args

-- Where the strings go, and where argc and the pointers to the strings go.
pub start_of_strings : (size : ℕ) → ℕ
start_of_strings size = sub_32 vmem_1_limit size

pub start_of_words : (size argcount : ℕ) → ℕ
unfolding start_of_strings
start_of_words size argcount =
    let end = sub_32 (start_of_strings size) ((argcount + 3 + post_argv_null_space) * 4) in
    end - end % 8

pub new_stack_pointer : (size argcount : ℕ) → ℕ
unfolding start_of_words
new_stack_pointer size argcount = sub_32 (start_of_words size argcount) initial_stack_frame_size

-- stack_npg
pub stack_pages : (size argcount : ℕ) → ℕ
unfolding new_stack_pointer
stack_pages size argcount =
    let sp = new_stack_pointer size argcount in sub_32 vmem_1_limit (sp - sp % 2 ^ 13) / 2 ^ 13

-- text_pg1 and data_pg1: addresses below region 1 wrap around to pages far beyond it.
abbrev pub text_page : LoadInfo → ℕ
text_page li = sub_32 li.t_vaddr vmem_1_base / 2 ^ 13

abbrev pub data_page : LoadInfo → ℕ
data_page li = sub_32 li.id_vaddr vmem_1_base / 2 ^ 13

-- data_pg1 + data_npg
abbrev pub data_end_page : LoadInfo → ℕ
data_end_page li = data_page li + (li.id_npg + li.ud_npg)

-- The checks before the old program is given up.
pub is_loadable : LoadInfo → (size argcount : ℕ) → Bool
unfolding stack_pages
is_loadable li size argcount =
    not (ltb li.entry vmem_1_base)
    && not (leb max_pt_len (stack_pages size argcount + data_end_page li))

-- The loop that builds the argument list: the words from `cpp` on, and the strings from `cp` on.
pub write_args :
    (args : List (List ℕ)) (cpp cp : ℕ) (words : ℕ → ℕ) (strings : List (ℕ × List ℕ))
    → (ℕ → ℕ) × List (ℕ × List ℕ)
write_args [] cpp cp words strings = (update (update words cpp 0) (cpp + 4) 0, strings)
write_args (arg ∷ args) cpp cp words strings =
    write_args args (cpp + 4) (cp + length arg + 1) (update words cpp cp)
      (strings ++ ((cp, arg) ∷ []))

-- What is on the new stack: the words, and the strings with their addresses.
pub build_argument_list : (args : List (List ℕ)) → (ℕ → ℕ) × List (ℕ × List ℕ)
build_argument_list args =
    let size = size_of_args args in
    let cpp = start_of_words size (length args) in
    write_args args (cpp + 4) (start_of_strings size) (update (λ a. 0) cpp (length args)) []

-- The fields of the PCB that are set.
pub record Loaded : Type 0 where
  pub sp : ℕ
  pub pc : ℕ
  pub lowest_user_stack_page : ℕ
  pub user_brk_page : ℕ

module _ (al : FrameAllocator) where
  -- One of the three segments, where the one before it is mapped.
  pub map_segment :
      (page n : ℕ) → Option (ℤ × (PageTable × al.State)) → Option (ℤ × (PageTable × al.State))
  map_segment page n before = elim before [
    | none ↦ none
    | some (rc, v) ↦
        if eqb_ℤ rc error
        then some (error, v)
        else map_new_region_1_pages al page n prot_read_write v
  ]

  -- The old region 1 is freed, and text, data and stack are mapped.
  pub map_program :
      LoadInfo → (stack_npg : ℕ) → PageTable × al.State → Option (ℤ × (PageTable × al.State))
  map_program li stack_npg v = map_segment (num_pages_reg_1 - stack_npg) stack_npg (
      map_segment (data_page li) (li.id_npg + li.ud_npg)
        (map_segment (text_page li) li.t_npg (some (success, free_region_1_page_table al v))))

  -- LoadProgram; no `Loaded` means that no field is set but perhaps `sp`, and `none` is a failed
  -- assert.
  pub load_program :
      (file : Option LoadInfo) (text_read data_read : Bool) (args : List (List ℕ))
      → PageTable × al.State
      → Option (ℤ × Option Loaded × (PageTable × al.State))
  load_program none text_read data_read args v = some (error, none, v)
  load_program (some li) text_read data_read args v =
      let size = size_of_args args in
      let sp = new_stack_pointer size (length args) in
      let loaded : Loaded = record {
        sp = sp;
        pc = li.entry;
        lowest_user_stack_page = addr_to_page sp - addr_to_page vmem_1_base;
        user_brk_page = data_end_page li;
      } in
      if not (is_loadable li size (length args))
      then some (error, none, v)
      else elim (map_program li (stack_pages size (length args)) v) [
        | none ↦ none
        | some (rc, (t, s)) ↦
            if eqb_ℤ rc error
            then some (error, none, (t, s))
            else if not (text_read && data_read)
            then some (kill, none, (t, s))
            else Option.map (λ t'. (success, some loaded, (t', s)))
                (change_prot_region_1_pages (text_page li) li.t_npg 5 t)
      ]
