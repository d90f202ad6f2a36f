-- ===== src/Mm/Frames/Lookup.antt =====
-- Which page a frame holds: the hash chains of kernel/mm/pframe.c as a table from objects and page
-- numbers to bytes.
use mathlib.Core.Option
use mathlib.Core.Path.{subst}
use weenix_assignment.Base.{
  ℕ, ◌≡◌, ◌≢◌, refl, ap, ◌∙◌, ◌⊎◌, inl, inr, true, false, Option, some, List, [], ◌∷◌, arith, All,
  put, ℕ_discrete, Bool-cases,
}
use weenix_assignment.Mm.Group.Valid.{All-map}
use weenix_assignment.Mm.Frames.{Frames, hash_page, identifies, find_frame, resident, touch}

abbrev pub bytes_of : Frames → Option ℕ → Option (ℕ → ℕ)
bytes_of s hit = Option.map (λ i. (s.pframe i).pf_bytes) hit

-- The bytes of a page, if it is resident.
unfoldable pub page : Frames → ℕ → ℕ → Option (ℕ → ℕ)
page s o pagenum = bytes_of s (resident s o pagenum)

abbrev pub NotIn : ℕ → List ℕ → Type 0
NotIn i chain = All (λ j. i ≢ j) chain

-- The search in two states that agree on all frames of the chain.
find_same :
    (s t : Frames) (o pagenum : ℕ) (chain : List ℕ)
    → All (λ j. t.pframe j ≡ s.pframe j) chain
    → (find_frame t o pagenum chain ≡ find_frame s o pagenum chain)
      × (bytes_of t (find_frame t o pagenum chain) ≡ bytes_of s (find_frame s o pagenum chain))
unfolding find_frame
find_same s t o pagenum [] same = (refl, refl)
find_same s t o pagenum (j ∷ chain) same =
    let here = same.0 in
    let (rest, bytes) = find_same s t o pagenum chain same.1 in
    elim (Bool-cases (identifies (s.pframe j) o pagenum)) [
      | inl hit ↦
          (let hit' : identifies (t.pframe j) o pagenum ≡ true = rw here hit in
            rw (hit, hit') (refl, ap (λ f. some f.pf_bytes) here))
      | inr miss ↦
          (let miss' : identifies (t.pframe j) o pagenum ≡ false = rw here miss in
            rw (miss, miss') (rest, bytes))
    ]

All-each {ℓ κ} : {A : Type ℓ} {P : A → Type κ} (l : List A) → ((a : A) → P a) → All P l
All-each [] f = tt
All-each (x ∷ l) f = (f x, All-each l f)

-- Two states with the same frames and chains have the same pages.
pub lookup-same :
    (s t : Frames)
    → ((j : ℕ) → t.pframe j ≡ s.pframe j)
    → ((k : ℕ) → t.pframe_hash k ≡ s.pframe_hash k)
    → (o pagenum : ℕ)
    → (resident t o pagenum ≡ resident s o pagenum) × (page t o pagenum ≡ page s o pagenum)
unfolding page resident
lookup-same s t frames chains o pagenum = rw (chains (hash_page o pagenum)) (
    find_same s t o pagenum (s.pframe_hash (hash_page o pagenum))
      (All-each (s.pframe_hash (hash_page o pagenum)) frames))

-- A frame that holds a page, new in its hash chain.
pub record Entered (s : Frames) (o pagenum i : ℕ) (bytes : ℕ → ℕ) (t : Frames) : Type 0 where
  pub others : (j : ℕ) → i ≢ j → t.pframe j ≡ s.pframe j
  pub owner : (t.pframe i).pf_obj ≡ some o
  pub number : (t.pframe i).pf_pagenum ≡ pagenum
  pub holds : (t.pframe i).pf_bytes ≡ bytes
  pub chain :
      (k : ℕ)
      → t.pframe_hash k
        ≡ put s.pframe_hash (hash_page o pagenum) (i ∷ s.pframe_hash (hash_page o pagenum)) k

abbrev pub IsNew : Frames → ℕ → Type 0
IsNew s i = (o pagenum : ℕ) → NotIn i (s.pframe_hash (hash_page o pagenum))

module _ (s : Frames) (o pagenum i : ℕ) (bytes : ℕ → ℕ) (t : Frames)
    (e : Entered s o pagenum i bytes t) (new : IsNew s i) where
  pub chain-Entered : t.pframe_hash (hash_page o pagenum) ≡ i ∷ s.pframe_hash (hash_page o pagenum)
  chain-Entered = e.chain (hash_page o pagenum) ∙ ground arith

  hits : identifies (t.pframe i) o pagenum ≡ true
  hits = ground (arith, e.owner, e.number)

  -- The page is resident in its frame.
  pub resident-Entered : resident t o pagenum ≡ some i
  unfolding resident find_frame
  resident-Entered = rw chain-Entered (rw hits refl)

  pub page-Entered : page t o pagenum ≡ some bytes
  unfolding page
  page-Entered = rw resident-Entered (ap some e.holds)

  misses :
      (o' pagenum' : ℕ)
      → (o ≢ o') ⊎ (pagenum ≢ pagenum')
      → identifies (t.pframe i) o' pagenum' ≡ false
  misses o' pagenum' other = ground (arith, e.owner, e.number, other)

  -- The other pages stay as they are.
  pub lookup-Entered_other :
      (o' pagenum' : ℕ)
      → (o ≢ o') ⊎ (pagenum ≢ pagenum')
      → (resident t o' pagenum' ≡ resident s o' pagenum')
        × (page t o' pagenum' ≡ page s o' pagenum')
  unfolding page resident find_frame
  lookup-Entered_other o' pagenum' other =
      let key = hash_page o' pagenum' in
      let old =
        find_same s t o' pagenum' (s.pframe_hash key)
          (All-map (s.pframe_hash key) (λ j out. e.others j out) (new o' pagenum')) in
      elim (ℕ_discrete (hash_page o pagenum) key) [
        | yes same ↦
            (let chain : t.pframe_hash key ≡ i ∷ s.pframe_hash key =
                e.chain key ∙ ground (arith, same) in
              rw chain (rw (misses o' pagenum' other) old))
        | no apart ↦
            (let chain : t.pframe_hash key ≡ s.pframe_hash key =
                e.chain key ∙ ground (arith, apart) in
              rw chain old)
      ]

  pub page-Entered_other :
      (o' pagenum' : ℕ) → (o ≢ o') ⊎ (pagenum ≢ pagenum') → page t o' pagenum' ≡ page s o' pagenum'
  page-Entered_other o' pagenum' other = (lookup-Entered_other o' pagenum' other).1

-- What is found identifies the page.
find_identifies :
    (s : Frames) (o pagenum i : ℕ) (chain : List ℕ)
    → find_frame s o pagenum chain ≡ some i
    → identifies (s.pframe i) o pagenum ≡ true
unfolding find_frame
find_identifies s o pagenum i [] h = absurd (ground (arith, h))
find_identifies s o pagenum i (j ∷ chain) h =
    elim (Bool-cases (identifies (s.pframe j) o pagenum)) [
      | inl hit ↦
          (let e : j ≡ i = ground (arith, h, hit) in
            subst (λ k. identifies (s.pframe k) o pagenum ≡ true) e hit)
      | inr miss ↦ find_identifies s o pagenum i chain (ground (arith, h, miss))
    ]

-- The search reads only what frames identify.
find_ids :
    (s t : Frames) (o pagenum : ℕ) (chain : List ℕ)
    → ((j : ℕ)
        → ((t.pframe j).pf_obj ≡ (s.pframe j).pf_obj)
          × ((t.pframe j).pf_pagenum ≡ (s.pframe j).pf_pagenum))
    → find_frame t o pagenum chain ≡ find_frame s o pagenum chain
unfolding find_frame
find_ids s t o pagenum [] ids = refl
find_ids s t o pagenum (j ∷ chain) ids =
    rw ((ids j).0, (ids j).1, find_ids s t o pagenum chain ids) refl

-- Two states whose frames identify the same pages.
pub resident-ids :
    (s t : Frames)
    → ((j : ℕ)
        → ((t.pframe j).pf_obj ≡ (s.pframe j).pf_obj)
          × ((t.pframe j).pf_pagenum ≡ (s.pframe j).pf_pagenum))
    → ((k : ℕ) → t.pframe_hash k ≡ s.pframe_hash k)
    → (o pagenum : ℕ) → resident t o pagenum ≡ resident s o pagenum
unfolding resident
resident-ids s t ids chains o pagenum =
    rw (chains (hash_page o pagenum))
      (find_ids s t o pagenum (s.pframe_hash (hash_page o pagenum)) ids)

-- A frame holds one page only.
pub resident-owner :
    (s : Frames) (o pagenum i x m : ℕ)
    → (s.pframe i).pf_obj ≡ some o
    → (s.pframe i).pf_pagenum ≡ pagenum
    → resident s x m ≡ some i
    → (o ≡ x) × (pagenum ≡ m)
unfolding resident
resident-owner s o pagenum i x m owner number h =
    let hit = find_identifies s x m i (s.pframe_hash (hash_page x m)) h in
    ground (arith, hit, owner, number)

-- A frame that is asked for moves in the list of allocated frames, and nothing else changes.
pub touch_lem :
    (s : Frames) (i : ℕ)
    → ((j : ℕ) → (touch s i).pframe j ≡ s.pframe j)
      × ((k : ℕ) → (touch s i).pframe_hash k ≡ s.pframe_hash k)
      × ((x : ℕ) → (touch s i).mmobj x ≡ s.mmobj x)
unfolding touch
touch_lem s i = (λ j. ground arith, λ k. ground arith, λ x. ground arith)
