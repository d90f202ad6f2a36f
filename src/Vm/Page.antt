-- ===== src/Vm/Page.antt =====
-- Pages and addresses of kernel/include/mm/page.h and mm.h.
use weenix_assignment.Base.{ℕ, ◌-◌, ◌*◌, ◌/◌, ◌%◌, ◌^◌, Bool, ◌==◌, add32, sub32}

abbrev pub page_size : ℕ
page_size = 2 ^ 12

abbrev pub user_mem_low : ℕ
user_mem_low = 0x00400000

abbrev pub user_mem_high : ℕ
user_mem_high = 0xc0000000

-- ADDR_TO_PN, PN_TO_ADDR, PAGE_OFFSET on 32-bit addresses.
abbrev pub addr_to_pn : ℕ → ℕ
addr_to_pn x = x / 2 ^ 12

abbrev pub pn_to_addr : ℕ → ℕ
pn_to_addr x = x * 2 ^ 12 % 2 ^ 32

abbrev pub page_offset : ℕ → ℕ
page_offset x = x % 2 ^ 12

-- PAGE_ALIGN_DOWN clears the low bits; PAGE_ALIGN_UP rounds `x - 1` down and adds a page.
abbrev pub page_align_down : ℕ → ℕ
page_align_down x = x - x % 2 ^ 12

abbrev pub page_align_up : ℕ → ℕ
page_align_up x = add32 (page_align_down (sub32 x 1)) page_size

abbrev pub page_aligned : ℕ → Bool
page_aligned x = x % 2 ^ 12 == 0

-- The bounds of user space, in pages.
abbrev pub user_low_pn : ℕ
user_low_pn = addr_to_pn user_mem_low

abbrev pub user_high_pn : ℕ
user_high_pn = addr_to_pn user_mem_high
