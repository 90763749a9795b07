-- ===== src/AddressSpace/Layout.antt =====
-- How a user address space is laid out: the heap below its break, a gap of unmapped pages, the stack.
use theynix.Base.{ℕ, ◌≤◌, ◌<◌, ◌≡◌, false}
use theynix.VMem.{num_pages_reg_1}
use theynix.AddressSpace.{Space}

-- At least one unmapped page lies between the heap and the stack, and none there is mapped.
pub record IsLaidOut (sp : Space) : Type 0 where
  pub gap : sp.user_brk_page < sp.lowest_user_stack_page
  pub fits : sp.lowest_user_stack_page ≤ num_pages_reg_1
  pub blank :
      (q : ℕ)
      → sp.user_brk_page ≤ q
      → q < sp.lowest_user_stack_page
      → (sp.region_1_page_table q).valid ≡ false
