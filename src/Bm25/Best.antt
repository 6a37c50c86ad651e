-- ===== src/Bm25/Best.antt =====
-- The best documents that `finalize_base` of lantern_extras/src/bm25_agg.rs chooses.
use mathlib.Core.Nat as Nat
use mathlib.Core.Path.{subst}
use mathlib.Core.Bool.{Bool-set}
use mathlib.Core.List.{
  Mem, Perm, mem-append, not-mem-nil, mem-append_left, mem-append_right, mem-cons_self,
  mem-cons_of_mem, forall_mem-cons, perm_middle, perm_append_comm, reverse_aux, reverse_perm,
}
use mathlib.Core.List as Lists
use mathlib.Core.List.Perm
use lanterndb.Prelude.{
  ℕ, suc, ◌+◌, ◌≤◌, ◌<◌, min, ◌≡◌, ◌⊎◌, inl, inr, refl, sym, ap, ◌∙◌, true, false, Option, some,
  List, [], ◌∷◌, ◌++◌, arith, ltb, ltb→lt, ltb→ge, length, length-append, ok, Bool-cases,
  append-nil,
}
use lanterndb.Bm25.Numbers.{Floats}
use lanterndb.Bm25.Finalize.{offer, keep_best}

to_native : Nat.ℕ → ℕ
to_native Nat.zero = 0
to_native (Nat.suc n) = suc (to_native n)

length-native : {A : Type 0} (xs : List A) → length xs ≡ to_native (Lists.length xs)
unfolding to_native
length-native [] = refl
length-native (x ∷ xs) = ap suc (length-native xs)

pub length-perm : {A : Type 0} (xs ys : List A) → Perm xs ys → length xs ≡ length ys
length-perm xs ys p = length-native xs ∙ ap to_native (Perm.length-eq p) ∙ sym (length-native ys)

full_items :
    {A : Type 0} (dropped : List A) (n m limit : ℕ)
    → n ≡ m
    → (dropped ≡ []) ⊎ (n ≡ limit)
    → (length dropped ≡ 0) ⊎ (m ≡ limit)
full_items dropped n m limit e (inl d) = inl (ap length d)
full_items dropped n m limit e (inr d) = inr (sym e ∙ d)

fill :
    {A : Type 0} (limit n m : ℕ) (dropped : List A)
    → (length dropped ≡ 0) ⊎ (m ≡ limit)
    → n ≡ m + length dropped
    → m ≤ limit
    → m ≡ min limit n
fill limit n m dropped (inl e) h small = omega (arith, e, h, small)
fill limit n m dropped (inr e) h small = omega (arith, e, h, small)

module _ {F : Type 0} (o : Floats F) where
  -- No score of the second list is above one of the first.
  abbrev pub IsAbove : List (ℕ × F) → List (ℕ × F) → Type 0
  IsAbove xs ds = (x d : ℕ × F) → Mem x xs → Mem d ds → o.lt x.1 d.1 ≡ false

  abbrev pub HasNoNan : List (ℕ × F) → Type 0
  HasNoNan xs = (x : ℕ × F) → Mem x xs → o.is_nan x.1 ≡ false

module _ {F H : Type 0} (o : Floats F) (empty : H) (push : ℕ × F → H → H) (pop : H → H)
    (peek : H → Option (ℕ × F)) (len : H → ℕ) (items : H → List (ℕ × F))
    (items-empty : items empty ≡ [])
    (items-push : (e : ℕ × F) (h : H) → Perm (items (push e h)) (e ∷ items h))
    (len_lem : (h : H) → len h ≡ length (items h))
    (peek_some : (h : H) → 0 < len h → (e : ℕ × F) × (peek h ≡ some e))
    (peek_least : (h : H) (e : ℕ × F)
      → peek h ≡ some e
      → Perm (items h) (e ∷ items (pop h)) × ((x : ℕ × F) → Mem x (items h) → o.lt x.1 e.1 ≡ false))
    (lt_asym : (a b : F) → o.lt a b ≡ true → o.lt b a ≡ false)
    (le_trans : (a b c : F)
      → o.is_nan b ≡ false
      → o.lt b a ≡ false
      → o.lt c b ≡ false
      → o.lt c a ≡ false) where
  -- What the heap holds of the entries seen, and what it dropped.
  record Kept (bloom_limit : ℕ) (seen : List (ℕ × F)) (h : H) : Type 0 where
    dropped : List (ℕ × F)
    all : Perm seen (items h ++ dropped)
    above : IsAbove o (items h) dropped
    small : len h ≤ bloom_limit
    full : (dropped ≡ []) ⊎ (len h ≡ bloom_limit)
    proper : HasNoNan o seen

  below_new :
      (e : ℕ × F) (ds : List (ℕ × F)) (xs : List (ℕ × F))
      → IsAbove o xs ds
      → ((d : ℕ × F) → Mem d ds → o.lt e.1 d.1 ≡ false)
      → IsAbove o (e ∷ xs) ds
  below_new e ds xs h k x d mx md =
      (forall_mem-cons (λ y. Bool-set (o.lt y.1 d.1) false)).1 (k d md, λ y my. h y d my md) x mx

  new_below :
      (e : ℕ × F) (ds : List (ℕ × F)) (xs : List (ℕ × F))
      → IsAbove o xs ds
      → ((x : ℕ × F) → Mem x xs → o.lt x.1 e.1 ≡ false)
      → IsAbove o xs (e ∷ ds)
  new_below e ds xs h k x d mx md =
      (forall_mem-cons (λ y. Bool-set (o.lt x.1 y.1) false)).1 (k x mx, λ y my. h x y mx my) d md

  IsAbove-perm : (xs ys ds : List (ℕ × F)) → Perm xs ys → IsAbove o ys ds → IsAbove o xs ds
  IsAbove-perm xs ys ds p h x d mx md = h x d ((Perm.mem_iff p).0 mx) md

  now_proper :
      (seen : List (ℕ × F)) (e : ℕ × F)
      → o.is_nan e.1 ≡ false
      → HasNoNan o seen
      → HasNoNan o (e ∷ seen)
  now_proper seen e ne h = (forall_mem-cons (λ y. Bool-set (o.is_nan y.1) false)).1 (ne, h)

  none_dropped :
      (dropped : List (ℕ × F)) (n limit : ℕ)
      → (dropped ≡ []) ⊎ (n ≡ limit)
      → n < limit
      → dropped ≡ []
  none_dropped dropped n limit (inl e) room = e
  none_dropped dropped n limit (inr e) room = absurd (omega (arith, e))

  Kept-push :
      (bloom_limit : ℕ) (seen : List (ℕ × F)) (h : H) (e : ℕ × F)
      → Kept bloom_limit seen h
      → o.is_nan e.1 ≡ false
      → len h < bloom_limit
      → Kept bloom_limit (e ∷ seen) (push e h)
  Kept-push bloom_limit seen h e k ne room = record {
    dropped = [];
    all = rw (append-nil (items (push e h))) (
        Perm.trans
          (Perm.cons e (
            subst (λ t. Perm seen t)
              (ap (λ t. items h ++ t) (none_dropped k.dropped (len h) bloom_limit k.full room)
                ∙ append-nil (items h))
              k.all))
          (Perm.symm (items-push e h)));
    above = λ x d mx md. absurd (not-mem-nil md);
    small = omega (
      arith,
      len_lem (push e h),
      len_lem h,
      length-perm (items (push e h)) (e ∷ items h) (items-push e h),
    );
    full = inl refl;
    proper = now_proper seen e ne k.proper;
  }

  least_proper :
      (bloom_limit : ℕ) (seen : List (ℕ × F)) (h : H) (least : ℕ × F)
      → Kept bloom_limit seen h
      → peek h ≡ some least
      → o.is_nan least.1 ≡ false
  least_proper bloom_limit seen h least k p = k.proper least (
      (Perm.mem_iff k.all).1
        (mem-append_left k.dropped ((Perm.mem_iff (peek_least h least p).0).1 mem-cons_self)))

  -- The entry is not above the least one: it is dropped.
  Kept-drop :
      (bloom_limit : ℕ) (seen : List (ℕ × F)) (h : H) (e least : ℕ × F)
      → Kept bloom_limit seen h
      → o.is_nan e.1 ≡ false
      → peek h ≡ some least
      → len h ≡ bloom_limit
      → o.lt least.1 e.1 ≡ false
      → Kept bloom_limit (e ∷ seen) h
  Kept-drop bloom_limit seen h e least k ne p full low = record {
    dropped = e ∷ k.dropped;
    all = Perm.trans (Perm.cons e k.all) (Perm.symm (perm_middle (items h) k.dropped));
    above = new_below e k.dropped (items h) k.above λ x mx.
        le_trans e.1 least.1 x.1 (least_proper bloom_limit seen h least k p) low
          ((peek_least h least p).1 x mx);
    small = k.small;
    full = inr full;
    proper = now_proper seen e ne k.proper;
  }

  -- The entry is above the least one, and takes its place.
  Kept-replace :
      (bloom_limit : ℕ) (seen : List (ℕ × F)) (h : H) (e least : ℕ × F)
      → Kept bloom_limit seen h
      → o.is_nan e.1 ≡ false
      → peek h ≡ some least
      → len h ≡ bloom_limit
      → o.lt least.1 e.1 ≡ true
      → Kept bloom_limit (e ∷ seen) (push e (pop h))
  Kept-replace bloom_limit seen h e least k ne p full high =
      let rest = items (pop h) in
      let split = (peek_least h least p).0 in
      let back : (x : ℕ × F) → Mem x rest → Mem x (items h) =
        λ x mx. (Perm.mem_iff split).1 (mem-cons_of_mem least mx) in
      let size : len (push e (pop h)) ≡ bloom_limit = omega (
        arith,
        len_lem (push e (pop h)),
        len_lem h,
        full,
        length-perm (items (push e (pop h))) (e ∷ rest) (items-push e (pop h)),
        length-perm (items h) (least ∷ rest) split,
      ) in
      record {
        dropped = least ∷ k.dropped;
        all = Perm.trans (Perm.cons e (Perm.trans k.all (Perm.append split Perm.rfl))) (
            Perm.trans (Perm.cons e (Perm.symm (perm_middle rest k.dropped)))
              (Perm.append (Perm.symm (items-push e (pop h))) Perm.rfl));
        above =
            IsAbove-perm (items (push e (pop h))) (e ∷ rest) (least ∷ k.dropped)
              (items-push e (pop h))
              (below_new e (least ∷ k.dropped) rest
                (new_below least k.dropped rest (λ x d mx md. k.above x d (back x mx) md)
                  (λ x mx. (peek_least h least p).1 x (back x mx)))
                ((forall_mem-cons (λ y. Bool-set (o.lt e.1 y.1) false)).1 (
                  lt_asym least.1 e.1 high,
                  λ d md.
                      le_trans d.1 least.1 e.1 (least_proper bloom_limit seen h least k p)
                        (k.above least d ((Perm.mem_iff split).1 mem-cons_self) md)
                        (lt_asym least.1 e.1 high),
                )));
        small = omega (arith, size);
        full = inr size;
        proper = now_proper seen e ne k.proper;
      }

  offer-Kept :
      (bloom_limit : ℕ) (seen : List (ℕ × F)) (h : H) (e : ℕ × F)
      → 0 < bloom_limit
      → Kept bloom_limit seen h
      → o.is_nan e.1 ≡ false
      → (h' : H) × (offer o push pop peek len bloom_limit e h ≡ ok h')
        × Kept bloom_limit (e ∷ seen) h'
  offer-Kept bloom_limit seen h e pos k ne = elim (Bool-cases (ltb (len h) bloom_limit)) [
    | inl t ↦
        (push e h, rw t refl, Kept-push bloom_limit seen h e k ne (ltb→lt (len h) bloom_limit t))
    | inr t ↦
        let full : len h ≡ bloom_limit = omega (arith, ltb→ge (len h) bloom_limit t, k.small) in
        let p = peek_some h (omega (arith, full)) in
        elim (Bool-cases (o.lt p.0.1 e.1)) [
          | inl u ↦ (
            push e (pop h),
            rw (t, p.1, u) refl,
            Kept-replace bloom_limit seen h e p.0 k ne p.1 full u,
          )
          | inr u ↦ (h, rw (t, p.1, u) refl, Kept-drop bloom_limit seen h e p.0 k ne p.1 full u)
        ]
  ]

  keep_best-Kept :
      (bloom_limit : ℕ) (es seen : List (ℕ × F)) (h : H)
      → 0 < bloom_limit
      → Kept bloom_limit seen h
      → HasNoNan o es
      → (h' : H) × (keep_best o push pop peek len bloom_limit es h ≡ ok h')
        × Kept bloom_limit (reverse_aux es seen) h'
  keep_best-Kept bloom_limit [] seen h pos k ne = (h, refl, k)
  keep_best-Kept bloom_limit (e ∷ es) seen h pos k ne =
      let step = offer-Kept bloom_limit seen h e pos k (ne e mem-cons_self) in
      let rest =
        keep_best-Kept bloom_limit es (e ∷ seen) step.0 pos step.2
          (λ x mx. ne x (mem-cons_of_mem e mx)) in
      (rest.0, rw step.1 rest.1, rest.2)

  start-Kept : (bloom_limit : ℕ) → Kept bloom_limit [] empty
  start-Kept bloom_limit = record {
    dropped = [];
    all = rw items-empty Perm.rfl;
    above = λ x d mx md. absurd (not-mem-nil md);
    small = omega (arith, len_lem empty, ap length items-empty);
    full = inl refl;
    proper = λ x mx. absurd (not-mem-nil mx);
  }

  -- What the heap holds at the end are the best of the entries, as many as the limit allows.
  pub keep_best_lem :
      (bloom_limit : ℕ) (es : List (ℕ × F))
      → 0 < bloom_limit
      → HasNoNan o es
      → (h : H) × (dropped : List (ℕ × F)) × (keep_best o push pop peek len bloom_limit es empty
          ≡ ok h)
        × Perm es (items h ++ dropped)
        × IsAbove o (items h) dropped
        × (length (items h) ≡ min bloom_limit (length es))
  keep_best_lem bloom_limit es pos ne =
      let r = keep_best-Kept bloom_limit es [] empty pos (start-Kept bloom_limit) ne in
      let all = Perm.trans (Perm.symm (reverse_perm es)) r.2.all in
      (
        r.0,
        r.2.dropped,
        r.1,
        all,
        r.2.above,
        fill bloom_limit (length es) (length (items r.0)) r.2.dropped
            (full_items r.2.dropped (len r.0) (length (items r.0)) bloom_limit (len_lem r.0)
              r.2.full)
            (length-perm es (items r.0 ++ r.2.dropped) all ∙ length-append (items r.0) r.2.dropped)
            (omega (arith, len_lem r.0, r.2.small)),
      )
