-- ===== src/Vm/Access.antt =====
-- `addr_perm`, `range_perm`, `copy_from_user` of kernel/api/access.c and `vmmap_read` of
-- kernel/vm/vmmap.c. The page frames are a parameter: `mem o n` are the bytes of the frame that the
-- `lookuppage` operation of the object `o` gives for its page `n`, unless it fails.
use weenix_assignment.Base.{
  ℕ, zero, suc, ◌+◌, ◌-◌, ◌/◌, ◌^◌, Bool, true, false, not, Option, none, some, List, [], ◌∷◌, ◌++◌,
  ltb, if◌then◌else◌, ◌>>=◌, add32, sub32, is_some, Result, ok, err, efault,
}
use weenix_assignment.Vm.Page.{page_size, addr_to_pn, page_offset}
use weenix_assignment.Vm.Area.{Area, vmmap_lookup}

abbrev pub prot_read : ℕ
prot_read = 1

unfoldable pub addr_perm : List Area → ℕ → ℕ → Bool
addr_perm areas vaddr perm = is_some (vmmap_lookup areas (addr_to_pn vaddr))

-- The loop over `i`; `none` means that the fuel ran out.
unfoldable pub range_perm_loop : ℕ → List Area → (avaddr len perm i : ℕ) → Option Bool
unfolding addr_perm
range_perm_loop zero areas avaddr len perm i = none
range_perm_loop (suc f) areas avaddr len perm i =
    let rest = range_perm_loop f areas avaddr len perm (add32 i page_size) in
    if ltb i len
    then if not (addr_perm areas (add32 avaddr i) perm) then some false else rest
    else some true

-- One round for each page, and the one that ends the loop.
unfoldable pub range_perm : List Area → (avaddr len perm : ℕ) → Option Bool
range_perm areas avaddr len perm =
    range_perm_loop (suc (suc (len / 2 ^ 12))) areas avaddr len perm 0

abbrev pub Frames : Type 0
Frames = ℕ → ℕ → Option (ℕ → ℕ)

-- What `memcpy` takes from a frame: `n` bytes from `at` on.
unfoldable pub slice : (ℕ → ℕ) → (at n : ℕ) → List ℕ
slice page at zero = []
slice page at (suc n) = page at ∷ slice page (at + 1) n

unfoldable pub chunk : (count bytes offset : ℕ) → ℕ
chunk count bytes offset =
    if ltb (count - bytes) (page_size - offset) then count - bytes else page_size - offset

-- The loop over the pages, on fuel. `none` is a fault (an address that no area covers, an area with
-- no object, a frame that is not set: the code does not look at the error of `lookuppage`) or the end
-- of the fuel.
unfoldable pub read_loop :
    ℕ → Frames → List Area → (cur end count bytes : ℕ) → List ℕ → Option (List ℕ)
unfolding slice chunk
read_loop zero mem areas cur end count bytes buf = none
read_loop (suc f) mem areas cur end count bytes buf = elim (ltb cur end) [
  | false ↦ some buf
  | true ↦ elim (vmmap_lookup areas (addr_to_pn cur)) [
    | none ↦ none
    | some vma ↦ elim vma.vma_obj [
      | none ↦ none
      | some o ↦
          let pagenum = sub32 (add32 vma.vma_off (addr_to_pn cur)) vma.vma_start in
          let temp = chunk count bytes (page_offset cur) in
          elim (mem o pagenum) [
            | none ↦ none
            | some page ↦
                read_loop f mem areas (add32 cur temp) end count (bytes + temp)
                  (buf ++ slice page (page_offset cur) temp)
          ]
    ]
  ]
]

unfoldable pub vmmap_read : Frames → List Area → (vaddr count : ℕ) → Option (List ℕ)
vmmap_read mem areas vaddr count =
    read_loop (suc count) mem areas vaddr (add32 vaddr count) count 0 []

unfoldable pub copy_from_user : Frames → List Area → (uaddr nbytes : ℕ) → Option (Result (List ℕ))
copy_from_user mem areas uaddr nbytes = do
  allowed ← range_perm areas uaddr nbytes prot_read
  if not allowed
      then some (err efault)
      else (do bytes ← vmmap_read mem areas uaddr nbytes; some (ok bytes))
