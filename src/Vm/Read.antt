-- ===== src/Vm/Read.antt =====
-- What `vmmap_read` reads.
use weenix_assignment.Base.{
  ℕ, zero, suc, ◌+◌, ◌-◌, ◌^◌, ◌≤◌, ◌<◌, ◌≡◌, refl, sym, ◌∙◌, ap, true, Option, none, some, List,
  [], ◌∷◌, ◌++◌, arith, ltb, add32, sub32, is_some, All, Bool-cases, Option-cases, inl, inr, dec_lt,
}
use mathlib.Core.List.{append_assoc, append-nil}
use weenix_assignment.Vm.Page.{addr_to_pn, page_offset, user_low_pn}
use weenix_assignment.Vm.Area.{Area, vmmap_lookup, covers}
use weenix_assignment.Vm.Valid.{IsMap, page_at, vmmap_lookup-IsArea}
use weenix_assignment.Vm.RemoveLoop.{HasObj}
use weenix_assignment.Vm.Access.{Frames, slice, chunk, read_loop, vmmap_read}
use weenix_assignment.Vm.Perm.{Covered}

pub area_found :
    (areas : List Area) (vfn : ℕ)
    → All HasObj areas
    → is_some (vmmap_lookup areas vfn) ≡ true
    → (vma : Area) × (o : ℕ) × (vmmap_lookup areas vfn ≡ some vma) × (vma.vma_obj ≡ some o)
unfolding vmmap_lookup
area_found [] vfn objs h = cc
area_found (a ∷ rest) vfn objs h = elim (Bool-cases (covers a vfn)) [
  | inl hit ↦ elim (Option-cases a.vma_obj) [
    | inl nothing ↦ absurd (ground (arith, objs.0))
    | inr (o, e) ↦ (a, o, rw hit, e)
  ]
  | inr miss ↦
      let (vma, o, found, e) = area_found rest vfn objs.1 (rw miss at h) in
      (vma, o, rw miss found, e)
]

-- The byte that a user address shows.
abbrev pub frame_at : Frames → List Area → ℕ → Option (ℕ → ℕ)
frame_at mem areas a = elim (page_at areas (addr_to_pn a)) [
  | none ↦ none
  | some m ↦ elim m.obj [ none ↦ none | some o ↦ mem o m.pagenum ]
]

abbrev pub byte_at : Frames → List Area → ℕ → ℕ
byte_at mem areas a = elim (frame_at mem areas a) [ none ↦ 0 | some page ↦ page (page_offset a) ]

-- The pages that are mapped in a range can be looked up.
abbrev pub Loads : Frames → List Area → (from to : ℕ) → Type 0
Loads mem areas from to =
    (a : ℕ)
    → from ≤ a
    → a < to
    → is_some (vmmap_lookup areas (addr_to_pn a)) ≡ true
    → is_some (frame_at mem areas a) ≡ true

abbrev pub bytes_at : Frames → List Area → (a n : ℕ) → List ℕ
bytes_at mem areas a zero = []
bytes_at mem areas a (suc n) = byte_at mem areas a ∷ bytes_at mem areas (a + 1) n

-- Objects that always give a page.
pub Loads-HasObj :
    (mem : Frames) (areas : List Area)
    → All HasObj areas
    → ((o n : ℕ) → is_some (mem o n) ≡ true)
    → (from to : ℕ) → Loads mem areas from to
Loads-HasObj mem areas objs all from to a low high there =
    let (vma, o, found, obj) = area_found areas (addr_to_pn a) objs there in
    ground (arith, found, obj, all o (vma.vma_off + addr_to_pn a - vma.vma_start))

module _ (mem : Frames) (areas : List Area) where
  bytes_at-add :
      (a n k : ℕ)
      → bytes_at mem areas a (n + k) ≡ bytes_at mem areas a n ++ bytes_at mem areas (a + n) k
  bytes_at-add a zero k = ground arith
  bytes_at-add a (suc n) k =
      let shift : suc n + k ≡ suc (n + k) = omega arith in
      let along : a + suc n ≡ a + 1 + n = omega arith in
      rw (shift, along) (ap (λ l. byte_at mem areas a ∷ l) (bytes_at-add (a + 1) n k))

  -- Within one page the frame shows the bytes of the addresses.
  slice-bytes_at :
      (vma : Area) (o pagenum : ℕ) (page : ℕ → ℕ) (a n : ℕ)
      → vmmap_lookup areas (addr_to_pn a) ≡ some vma
      → vma.vma_obj ≡ some o
      → pagenum ≡ vma.vma_off + addr_to_pn a - vma.vma_start
      → mem o pagenum ≡ some page
      → page_offset a + n ≤ 2 ^ 12
      → slice page (page_offset a) n ≡ bytes_at mem areas a n
  unfolding slice
  slice-bytes_at vma o pagenum page a zero found obj e frame fit = refl
  slice-bytes_at vma o pagenum page a (suc zero) found obj e frame fit = ground (arith, frame)
  slice-bytes_at vma o pagenum page a (suc (suc n)) found obj e frame fit =
      let next : addr_to_pn (a + 1) ≡ addr_to_pn a = omega arith in
      let off : page_offset (a + 1) ≡ page_offset a + 1 = omega arith in
      let found' : vmmap_lookup areas (addr_to_pn (a + 1)) ≡ some vma = rw next found in
      let ih =
        slice-bytes_at vma o pagenum page (a + 1) (suc n) found' obj (rw next e) frame
          (omega arith) in
      ground (arith, ih, off, frame)

  -- The frame of an address of an area.
  frame_found :
      (vma : Area) (o pagenum : ℕ) (a : ℕ)
      → vmmap_lookup areas (addr_to_pn a) ≡ some vma
      → vma.vma_obj ≡ some o
      → pagenum ≡ vma.vma_off + addr_to_pn a - vma.vma_start
      → is_some (frame_at mem areas a) ≡ true
      → (page : ℕ → ℕ) × (mem o pagenum ≡ some page)
  frame_found vma o pagenum a found obj e there = elim (Option-cases (mem o pagenum)) [
    | inl gone ↦ absurd (ground (arith, gone, there))
    | inr (page, frame) ↦ (page, frame)
  ]

  chunk_bounds :
      (count bytes cur : ℕ)
      → bytes < count
      → (0 < chunk count bytes (page_offset cur))
        × (bytes + chunk count bytes (page_offset cur) ≤ count)
        × (page_offset cur + chunk count bytes (page_offset cur) ≤ 2 ^ 12)
  unfolding chunk
  chunk_bounds count bytes cur h = ground arith

  module _ (s : IsMap areas) (objs : All HasObj areas) (vaddr count : ℕ)
      (fits : vaddr + count < 2 ^ 32) (cov : Covered areas vaddr (vaddr + count))
      (loads : Loads mem areas vaddr (vaddr + count)) where
    read_on :
        (f cur bytes n : ℕ) (buf : List ℕ) (vma : Area) (o : ℕ) (page : ℕ → ℕ)
        → ltb cur (vaddr + count) ≡ true
        → vmmap_lookup areas (addr_to_pn cur) ≡ some vma
        → vma.vma_obj ≡ some o
        → mem o (sub32 (add32 vma.vma_off (addr_to_pn cur)) vma.vma_start) ≡ some page
        → slice page (page_offset cur) (chunk count bytes (page_offset cur))
          ≡ bytes_at mem areas cur (chunk count bytes (page_offset cur))
        → add32 cur (chunk count bytes (page_offset cur))
          ≡ vaddr + (bytes + chunk count bytes (page_offset cur))
        → n ≡ chunk count bytes (page_offset cur)
        → read_loop (suc f) mem areas cur (vaddr + count) count bytes buf
          ≡ read_loop f mem areas
              (vaddr + (bytes + n))
              (vaddr + count)
              count
              (bytes + n)
              (buf ++ bytes_at mem areas cur n)
    unfolding read_loop
    read_on f cur bytes n buf vma o page test found obj frame copied wrap e = ground arith

    read_loop-bytes_at :
        (fuel bytes : ℕ) (buf : List ℕ)
        → bytes ≤ count
        → count < bytes + fuel
        → read_loop fuel mem areas (vaddr + bytes) (vaddr + count) count bytes buf
          ≡ some (buf ++ bytes_at mem areas (vaddr + bytes) (count - bytes))
    unfolding read_loop
    read_loop-bytes_at zero bytes buf le more = absurd (omega arith)
    read_loop-bytes_at (suc f) bytes buf le more = elim (dec_lt bytes count) [
      | no done ↦
          let e : bytes ≡ count = omega arith in
          let none_left : count - bytes ≡ 0 = omega arith in
          ground (arith, e, none_left, append-nil buf)
      | yes lt ↦
          let cur = vaddr + bytes in
          let n = chunk count bytes (page_offset cur) in
          let (vma, o, found, obj) =
            area_found areas (addr_to_pn cur) objs (cov cur (omega arith) (omega arith)) in
          let area = vmmap_lookup-IsArea user_low_pn areas (addr_to_pn cur) vma s found in
          let size = chunk_bounds count bytes cur lt in
          let pagenum = sub32 (add32 vma.vma_off (addr_to_pn cur)) vma.vma_start in
          let exact : pagenum ≡ vma.vma_off + addr_to_pn cur - vma.vma_start =
            omega (arith, area) in
          let (page, frame) =
            frame_found vma o pagenum cur found obj exact
              (loads cur (omega arith) (omega arith) (rw found refl)) in
          let copied = slice-bytes_at vma o pagenum page cur n found obj exact frame size.2 in
          let test : ltb cur (vaddr + count) ≡ true = ground arith in
          let wrap : add32 cur n ≡ vaddr + (bytes + n) = omega (arith, size) in
          let left : count - bytes ≡ n + (count - (bytes + n)) = omega (arith, size) in
          let ih =
            read_loop-bytes_at f (bytes + n) (buf ++ bytes_at mem areas cur n) (omega (arith, size))
              (omega (arith, size)) in
          read_on f cur bytes n buf vma o page test found obj frame copied wrap refl
          ∙ ih
          ∙ ap some (
              append_assoc buf (bytes_at mem areas cur n)
                (bytes_at mem areas (vaddr + (bytes + n)) (count - (bytes + n))))
          ∙ ap (λ l. some (buf ++ l))
              (ap (λ a. bytes_at mem areas cur n ++ bytes_at mem areas a (count - (bytes + n)))
                  (omega arith)
                ∙ sym (bytes_at-add cur n (count - (bytes + n)))
                ∙ ap (bytes_at mem areas cur) (sym left))
    ]

-- Reading from a range of user addresses that are all mapped, to pages that can be looked up, succeeds, and gives the bytes that
-- those addresses show, in order.
pub vmmap_read-bytes_at :
    (mem : Frames) (areas : List Area) (vaddr count : ℕ)
    → IsMap areas
    → All HasObj areas
    → vaddr + count < 2 ^ 32
    → Covered areas vaddr (vaddr + count)
    → Loads mem areas vaddr (vaddr + count)
    → vmmap_read mem areas vaddr count ≡ some (bytes_at mem areas vaddr count)
unfolding vmmap_read
vmmap_read-bytes_at mem areas vaddr count s objs fits cov loads =
    let end : add32 vaddr count ≡ vaddr + count = omega arith in
    let start : vaddr + 0 ≡ vaddr = omega arith in
    let all : count - 0 ≡ count = omega arith in
    let run =
      read_loop-bytes_at mem areas s objs vaddr count fits cov loads (suc count) 0 [] (omega arith)
        (omega arith) in
    ground (arith, end, start, all, run)
