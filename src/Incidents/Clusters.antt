-- ===== src/Incidents/Clusters.antt =====
-- scripts/diagnose-logs.py: a loop that puts each item into the last group, or begins a new one. Both
-- loops of the script are of this kind.
use mathlib.Core.List.{append_assoc, append-nil}
use esphome_snapcast.Base.{
  ◌≡◌, refl, ◌∙◌, ap, sym, inl, inr, Bool, true, false, List, [], ◌∷◌, ◌++◌, if◌then◌else◌, concat,
  Bool-cases,
}

module _ {A : Type 0} (near : List A → A → Bool) where
  -- The rest of the loop, with the last group in hand.
  unfoldable pub cluster_from : List A → List A → List (List A)
  cluster_from cur [] = cur ∷ []
  cluster_from cur (x ∷ xs) =
      let joins = near cur x in
      let rest = cluster_from (if joins then cur ++ x ∷ [] else x ∷ []) xs in
      if joins then rest else cur ∷ rest

  unfoldable pub cluster : List A → List (List A)
  unfolding cluster_from
  cluster [] = []
  cluster (x ∷ xs) = cluster_from (x ∷ []) xs

  pub cluster_from-join :
      (cur : List A) (x : A) (xs : List A)
      → near cur x ≡ true
      → cluster_from cur (x ∷ xs) ≡ cluster_from (cur ++ x ∷ []) xs
  unfolding cluster_from
  cluster_from-join cur x xs h = rw h refl

  pub cluster_from-cut :
      (cur : List A) (x : A) (xs : List A)
      → near cur x ≡ false
      → cluster_from cur (x ∷ xs) ≡ cur ∷ cluster_from (x ∷ []) xs
  unfolding cluster_from
  cluster_from-cut cur x xs h = rw h refl

-- `Near g x` is what the loop finds when it puts `x` into the group `g`, `Far g x` when it does not.
module _ {A : Type 0} (Near Far : List A → A → Type 0) where
  -- Each member of `more` is near to what stands in front of it in its group.
  abbrev pub Grows : List A → List A → Type 0
  Grows front [] = Unit
  Grows front (x ∷ more) = Near front x × Grows (front ++ x ∷ []) more

  abbrev pub IsGroup : List A → Type 0
  IsGroup [] = ⊥
  IsGroup (x ∷ xs) = Grows (x ∷ []) xs

  -- The next group begins far from the whole of this one.
  abbrev pub IsFar : List A → List (List A) → Type 0
  IsFar g [] = Unit
  IsFar g ([] ∷ groups) = ⊥
  IsFar g ((x ∷ xs) ∷ groups) = Far g x

  abbrev pub AreGroups : List (List A) → Type 0
  AreGroups [] = Unit
  AreGroups (g ∷ groups) = IsGroup g × IsFar g groups × AreGroups groups

  pub Grows-snoc :
      (front more : List A) (x : A)
      → Grows front more
      → Near (front ++ more) x
      → Grows front (more ++ x ∷ [])
  Grows-snoc front [] x h n = (rw⁻¹ (append-nil front) n, tt)
  Grows-snoc front (y ∷ more) x (n, h) last =
      (n, Grows-snoc (front ++ y ∷ []) more x h (rw (append_assoc front (y ∷ []) more) last))

  IsGroup-snoc : (g : List A) (x : A) → IsGroup g → Near g x → IsGroup (g ++ x ∷ [])
  IsGroup-snoc [] x h n = absurd h
  IsGroup-snoc (y ∷ ys) x h n = Grows-snoc (y ∷ []) ys x h n

  module _ (near : List A → A → Bool)
      (near-true : (g : List A) (x : A) → near g x ≡ true → Near g x)
      (near-false : (g : List A) (x : A) → near g x ≡ false → Far g x) where
    -- What the loop makes of the group in hand and the items behind it.
    pub record IsClustered (cur items : List A) (groups : List (List A)) : Type 0 where
      pub joined : concat groups ≡ cur ++ items
      pub apart : AreGroups groups
      -- How the first group begins.
      pub more : List A
      pub later : List (List A)
      pub first : groups ≡ (cur ++ more) ∷ later

    cluster_from-IsClustered :
        (cur items : List A) → IsGroup cur → IsClustered cur items (cluster_from near cur items)
    cluster_from-IsClustered cur [] h =
        unfold cluster_from in
        record {
          joined = refl;
          apart = (h, tt, tt);
          more = [];
          later = [];
          first = ap (λ g. g ∷ []) (sym (append-nil cur));
        }
    cluster_from-IsClustered cur (x ∷ xs) h = elim (Bool-cases (near cur x)) [
      | inl joins ↦
          let rest =
            cluster_from-IsClustered (cur ++ x ∷ []) xs
              (IsGroup-snoc cur x h (near-true cur x joins)) in
          rw (cluster_from-join near cur x xs joins) (record {
            joined = rest.joined ∙ append_assoc cur (x ∷ []) xs;
            apart = rest.apart;
            more = x ∷ rest.more;
            later = rest.later;
            first = rest.first ∙ ap (λ g. g ∷ rest.later) (append_assoc cur (x ∷ []) rest.more);
          })
      | inr cuts ↦
          let rest = cluster_from-IsClustered (x ∷ []) xs tt in
          let far : IsFar cur (cluster_from near (x ∷ []) xs) =
            rw (rest.first) (near-false cur x cuts) in
          rw (cluster_from-cut near cur x xs cuts) (record {
            joined = ap (λ r. cur ++ r) rest.joined;
            apart = (h, far, rest.apart);
            more = [];
            later = cluster_from near (x ∷ []) xs;
            first = ap (λ g. g ∷ cluster_from near (x ∷ []) xs) (sym (append-nil cur));
          })
    ]

    -- The groups are the items, in order, none of them lost, and they are apart.
    pub cluster-AreGroups :
        (items : List A) → (concat (cluster near items) ≡ items) × AreGroups (cluster near items)
    unfolding cluster
    cluster-AreGroups [] = (refl, tt)
    cluster-AreGroups (x ∷ xs) =
        let r = cluster_from-IsClustered (x ∷ []) xs tt in (r.joined, r.apart)
