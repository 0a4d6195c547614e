-- ===== src/Db/Load/Numbered.antt =====
-- A bucket whose keys are numbers, read in whole.
use rewardcalculator.Base.{
  ℕ, nat_eq, ◌<◌, ◌≡◌, ◌≢◌, refl, sym, ap, ◌∙◌, arith, Bool, true, false, Option, none, some, List,
  [], ◌∷◌, ◌++◌, ltb, ◌==◌, if◌then◌else◌, lookup, Entries, Entries-of_lookup, Bool-cases, inl, inr,
}
use rewardcalculator.Base.Words.{modulus}
use rewardcalculator.Base.Bytes.{Bytes, bytes_eq, bytes_beq, before, has_prefix, has_prefix-append}
use rewardcalculator.Db.Engine.{Engine}
use rewardcalculator.Db.Key.{internal_key, id, height_of_key}
use rewardcalculator.Db.Key.Order.{
  height_of_key-internal_key, before-internal_key, internal_key-differ,
}
use rewardcalculator.Db.Ordered.{IsFirst, IsSorted, Ordered}
use rewardcalculator.Db.Load.{load_all, load_bucket}

true-false : true ≢ false
true-false h = cc

pub found_inside :
    (b : Bool) (o : Option Bytes) (v : Bytes)
    → (if b then o else none) ≡ some v
    → (b ≡ true) × (o ≡ some v)
found_inside true o v h = (refl, h)
found_inside false o v h = cc

abbrev pub key_of : Bytes → ℕ → Bytes
key_of prefix n = internal_key prefix (id n)

module _ {D A : Type 0} (decode : Bytes → Option D) (prefix : Bytes) (make : ℕ → D → A) where
  -- The item of an entry: the number from its key, what the bytes of its value decode to.
  abbrev pub made : ℕ → Option D → Option A
  made n none = none
  made n (some d) = some (make n d)

  abbrev pub item : Bytes → Bytes → Option A
  item key value = made (height_of_key prefix key) (decode value)

  -- An entry of the bucket.
  pub record IsEntry (key : Bytes) (value : Bytes) : Type 0 where
    pub number : ℕ
    pub datum : D
    pub fits : number < modulus
    pub is_key : key ≡ key_of prefix number
    pub decodes : decode value ≡ some datum

  abbrev pub decoded : Option Bytes → Option D
  decoded none = none
  decoded (some value) = decode value

  unfoldable numbered : (m : List (Bytes × Bytes)) → Entries IsEntry m → List (ℕ × D)
  numbered [] h = []
  numbered ((key, value) ∷ m) h = (h.0.number, h.0.datum) ∷ numbered m h.1

  abbrev pub items : List (ℕ × D) → List A
  items [] = []
  items ((n, d) ∷ l) = make n d ∷ items l

  load_all-numbered :
      (m : List (Bytes × Bytes)) (h : Entries IsEntry m)
      → load_all item m ≡ some (items (numbered m h))
  unfolding load_all numbered
  load_all-numbered [] h = refl
  load_all-numbered ((key, value) ∷ m) h =
      let n : height_of_key prefix key ≡ h.0.number =
        ap (height_of_key prefix) h.0.is_key
        ∙ height_of_key-internal_key prefix h.0.number h.0.fits in
      rw (load_all-numbered m h.1, h.0.decodes, n) refl

  IsFirst-numbered :
      (key value : Bytes) (e : IsEntry key value) (m : List (Bytes × Bytes)) (h : Entries IsEntry m)
      → IsFirst before key m
      → IsFirst ltb e.number (numbered m h)
  unfolding numbered
  IsFirst-numbered key value e [] h f = tt
  IsFirst-numbered key value e ((k, v) ∷ m) h f =
      let keys : before (key_of prefix e.number) (key_of prefix h.0.number) ≡ true =
        rw (← e.is_key, ← h.0.is_key) f.0 in
      let less = before-internal_key prefix e.number h.0.number e.fits h.0.fits keys in
      (ground (arith, less), IsFirst-numbered key value e m h.1 f.1)

  numbered-IsSorted :
      (m : List (Bytes × Bytes)) (h : Entries IsEntry m)
      → IsSorted before m
      → IsSorted ltb (numbered m h)
  unfolding numbered
  numbered-IsSorted [] h s = tt
  numbered-IsSorted ((key, value) ∷ m) h s =
      (IsFirst-numbered key value h.0 m h.1 s.0, numbered-IsSorted m h.1 s.1)

  numbered-bounded :
      (m : List (Bytes × Bytes)) (h : Entries IsEntry m)
      → Entries (λ n d. n < modulus) (numbered m h)
  unfolding numbered
  numbered-bounded [] h = tt
  numbered-bounded ((key, value) ∷ m) h = (h.0.fits, numbered-bounded m h.1)

  lookup-numbered :
      (m : List (Bytes × Bytes)) (h : Entries IsEntry m) (n : ℕ)
      → n < modulus
      → lookup n (numbered m h) ≡ decoded (lookup (key_of prefix n) m)
  unfolding numbered
  lookup-numbered [] h n fits = refl
  lookup-numbered ((key, value) ∷ m) h n fits =
      let same : bytes_beq key (key_of prefix n) ≡ (h.0.number == n) =
        ap (λ k. bytes_beq k (key_of prefix n)) h.0.is_key
        ∙ internal_key-differ prefix h.0.number n h.0.fits fits in
      elim (Bool-cases (h.0.number == n)) [
        | inl own ↦ rw (same, own) (sym h.0.decodes)
        | inr other ↦ rw (same, other) (lookup-numbered m h.1 n fits)
      ]

  inside_range :
      (n : ℕ) (o : Option Bytes) → (if has_prefix prefix (key_of prefix n) then o else none) ≡ o
  unfolding internal_key
  inside_range n o = rw (has_prefix-append prefix (id n)) refl

  -- A key outside of the range is none of the bucket's.
  apart : (k : Bytes) (m : ℕ) → has_prefix prefix k ≡ false → bytes_beq k (key_of prefix m) ≡ false
  unfolding internal_key
  apart k m outside = elim (Bool-cases (bytes_beq k (key_of prefix m))) [
    | inl own ↦
        let same : k ≡ prefix ++ id m = (bytes_eq.beq_iff k (key_of prefix m)).0 own in
        absurd (
          true-false
            (sym (has_prefix-append prefix (id m)) ∙ ap (has_prefix prefix) (sym same) ∙ outside))
    | inr other ↦ other
  ]

  module _ (G : Engine Bytes Bytes) where
    -- Every entry in the range of the prefix is an entry of the bucket.
    abbrev pub IsBucket : G.Table → Type 0
    IsBucket t =
        (key value : Bytes)
        → has_prefix prefix key ≡ true
        → G.get t key ≡ some value
        → IsEntry key value

    -- What the bucket has under a number.
    unfoldable pub view : G.Table → ℕ → Option D
    view t n = decoded (G.get t (key_of prefix n))

    entries : (t : G.Table) → IsBucket t → Entries IsEntry (G.iterate t (has_prefix prefix))
    entries t is =
        Entries-of_lookup IsEntry (G.iterate t (has_prefix prefix))
          (G.iterate-DistinctKeys t (has_prefix prefix))
          (λ key value found.
            let inside =
              found_inside (has_prefix prefix key) (G.get t key) value
                (sym (G.lookup-iterate t (has_prefix prefix) key) ∙ found) in
            is key value inside.0 inside.1)

    -- The items are in the order of their numbers, and are what the bucket has under them.
    pub record Loaded (t : G.Table) (result : Option (List A)) : Type 0 where
      pub contents : List (ℕ × D)
      pub is : result ≡ some (items contents)
      pub in_order : IsSorted ltb contents
      pub bounded : Entries (λ n d. n < modulus) contents
      pub complete : (n : ℕ) → n < modulus → lookup n contents ≡ view t n

    pub load_bucket-Loaded :
        (t : G.Table) → Ordered before G → IsBucket t → Loaded t (load_bucket G prefix item t)
    unfolding load_bucket view
    load_bucket-Loaded t ordered is =
        let m = G.iterate t (has_prefix prefix) in
        let h = entries t is in
        record {
          contents = numbered m h;
          is = load_all-numbered m h;
          bounded = numbered-bounded m h;
          in_order = numbered-IsSorted m h (ordered.iterate-IsSorted t (has_prefix prefix));
          complete = λ n fits.
              lookup-numbered m h n fits
              ∙ ap decoded (
                  G.lookup-iterate t (has_prefix prefix) (key_of prefix n)
                  ∙ inside_range n (G.get t (key_of prefix n)));
        }

    -- A write under a number, of bytes that decode.
    pub IsBucket-set :
        (t : G.Table) (n : ℕ) (value : Bytes) (d : D)
        → n < modulus
        → decode value ≡ some d
        → IsBucket t
        → IsBucket (G.set t (key_of prefix n) value)
    IsBucket-set t n value d fits decodes is key v inside found =
        let there = sym (G.get-set t (key_of prefix n) value key) ∙ found in
        elim (Bool-cases (bytes_beq (key_of prefix n) key)) [
          | inl own ↦
              let v_is : value ≡ v = (let it = rw own at there in cc) in
              record {
                number = n;
                datum = d;
                fits = fits;
                is_key = sym ((bytes_eq.beq_iff (key_of prefix n) key).0 own);
                decodes = rw (← v_is) decodes;
              }
          | inr other ↦ is key v inside (rw other at there)
        ]

    -- A write outside of the range of the prefix.
    pub IsBucket-set_outside :
        (t : G.Table) (k value : Bytes)
        → has_prefix prefix k ≡ false
        → IsBucket t
        → IsBucket (G.set t k value)
    IsBucket-set_outside t k value outside is key v inside found =
        let there = sym (G.get-set t k value key) ∙ found in
        elim (Bool-cases (bytes_beq k key)) [
          | inl own ↦
              let same : k ≡ key = (bytes_eq.beq_iff k key).0 own in
              absurd (true-false (sym inside ∙ ap (has_prefix prefix) (sym same) ∙ outside))
          | inr other ↦ is key v inside (rw other at there)
        ]

    pub view-set :
        (t : G.Table) (n : ℕ) (value : Bytes) (m : ℕ)
        → n < modulus
        → m < modulus
        → view (G.set t (key_of prefix n) value) m ≡ (if n == m then decode value else view t m)
    unfolding view
    view-set t n value m fits fits' =
        ap decoded (G.get-set t (key_of prefix n) value (key_of prefix m))
        ∙ (elim (Bool-cases (n == m)) [
          | inl own ↦ rw (internal_key-differ prefix n m fits fits', own) refl
          | inr other ↦ rw (internal_key-differ prefix n m fits fits', other) refl
        ])

    pub view-set_outside :
        (t : G.Table) (k value : Bytes) (m : ℕ)
        → has_prefix prefix k ≡ false
        → view (G.set t k value) m ≡ view t m
    unfolding view
    view-set_outside t k value m outside =
        ap decoded (G.get-set t k value (key_of prefix m)) ∙ rw (apart k m outside) refl
