-- ===== src/Contract/Merge/Portals.antt =====
-- `merge_active_portals`: every peer once, those of the new registry first.
use sqd_network.Base.{
  ◌≡◌, refl, sym, ap, ap₂, append-nil, ◌∙◌, true, false, ◌||◌, ◌&&◌, not, List, [], ◌∷◌, ◌++◌, Eq,
  if◌then◌else◌, arith, inl, inr, Bool-cases,
}
use sqd_network.Contract.Merge.{contains, keep_new, merge_active_portals}

module _ {P : Type 0} ⦃e : Eq P⦄ where
  -- No peer stands twice.
  abbrev pub Distinct : List P → Type 0
  Distinct [] = Unit
  Distinct (p ∷ ps) = (contains ps p ≡ false) × Distinct ps

  pub contains-append :
      (xs ys : List P) (p : P) → contains (xs ++ ys) p ≡ contains xs p || contains ys p
  unfolding contains
  contains-append [] ys p = refl
  contains-append (x ∷ xs) ys p = ground (arith, contains-append xs ys p)

  beq_self : (p : P) → e.beq p p ≡ true
  beq_self p = (e.beq_iff p p).1 refl

  -- Whether a peer is kept: it occurs and was not seen before.
  contains-keep_new :
      (seen ps : List P) (p : P)
      → contains (keep_new seen ps) p ≡ not (contains seen p) && contains ps p
  unfolding contains keep_new
  contains-keep_new seen [] p = ground arith
  contains-keep_new seen (q ∷ ps) p =
      ground (arith, contains-keep_new seen ps p, contains-keep_new (q ∷ seen) ps p, e.beq_iff q p)

  keep_new-Distinct : (seen ps : List P) → Distinct (keep_new seen ps)
  unfolding contains keep_new
  keep_new-Distinct seen [] = tt
  keep_new-Distinct seen (q ∷ ps) = ground (
    arith,
    keep_new-Distinct seen ps,
    keep_new-Distinct (q ∷ seen) ps,
    contains-keep_new (q ∷ seen) ps q,
    beq_self q,
  )

  -- Only the set of the seen peers matters.
  keep_new_ext :
      (seen other ps : List P)
      → ((p : P) → contains seen p ≡ contains other p)
      → keep_new seen ps ≡ keep_new other ps
  unfolding contains keep_new
  keep_new_ext seen other [] h = refl
  keep_new_ext seen other (q ∷ ps) h = ground (
    arith,
    h q,
    keep_new_ext seen other ps h,
    keep_new_ext (q ∷ seen) (q ∷ other) ps (λ p. ap (λ b. e.beq q p || b) (h p)),
  )

  seen_already :
      (seen xs : List P) (x p : P)
      → contains seen x ≡ true
      → contains (xs ++ seen) p ≡ contains (x ∷ (xs ++ seen)) p
  unfolding contains
  seen_already seen xs x p h = ground (arith, contains-append xs seen p, e.beq_iff x p)

  seen_first :
      (seen xs : List P) (x p : P) → contains (xs ++ x ∷ seen) p ≡ contains (x ∷ (xs ++ seen)) p
  unfolding contains
  seen_first seen xs x p =
      ground (arith, contains-append xs seen p, contains-append xs (x ∷ seen) p)

  keep_new-append :
      (seen xs ys : List P)
      → keep_new seen (xs ++ ys) ≡ keep_new seen xs ++ keep_new (xs ++ seen) ys
  unfolding contains keep_new
  keep_new-append seen [] ys = refl
  keep_new-append seen (x ∷ xs) ys = elim (Bool-cases (contains seen x)) [
    | inl old ↦
        rw (old, keep_new)
          (keep_new-append seen xs ys
            ∙ ap (λ l. keep_new seen xs ++ l)
                (keep_new_ext (xs ++ seen) (x ∷ (xs ++ seen)) ys
                  (λ p. seen_already seen xs x p old)))
    | inr new ↦
        rw (new, keep_new)
          (ap (◌∷◌ x) (
            keep_new-append (x ∷ seen) xs ys
            ∙ ap (λ l. keep_new (x ∷ seen) xs ++ l)
                (keep_new_ext (xs ++ x ∷ seen) (x ∷ (xs ++ seen)) ys (seen_first seen xs x))))
  ]

  -- What is left of a list without the peers of another one, in order.
  abbrev pub without : List P → List P → List P
  without gone [] = []
  without gone (p ∷ ps) = let rest = without gone ps in if contains gone p then rest else p ∷ rest

  -- The first occurrence of each peer, in order.
  abbrev pub firsts : List P → List P
  firsts [] = []
  firsts (p ∷ ps) = p ∷ without (p ∷ []) (firsts ps)

  without_both :
      (gone : List P) (p : P) (l : List P)
      → contains gone p ≡ false
      → without gone (without (p ∷ []) l) ≡ without (p ∷ gone) l
  unfolding contains
  without_both gone p [] h = refl
  without_both gone p (q ∷ l) h = ground (arith, without_both gone p l h)

  without_again :
      (gone : List P) (p : P) (l : List P)
      → contains gone p ≡ true
      → without gone (without (p ∷ []) l) ≡ without gone l
  unfolding contains
  without_again gone p [] h = refl
  without_again gone p (q ∷ l) h = ground (arith, without_again gone p l h, e.beq_iff p q)

  without_none : (l : List P) → without [] l ≡ l
  unfolding contains
  without_none [] = refl
  without_none (p ∷ l) = ap (◌∷◌ p) (without_none l)

  keep_new-firsts : (seen ps : List P) → keep_new seen ps ≡ without seen (firsts ps)
  unfolding keep_new
  keep_new-firsts seen [] = refl
  keep_new-firsts seen (p ∷ ps) = elim (Bool-cases (contains seen p)) [
    | inl old ↦
        rw (old, keep_new) (keep_new-firsts seen ps ∙ sym (without_again seen p (firsts ps) old))
    | inr fresh ↦
        rw (fresh, keep_new)
          (ap (◌∷◌ p) (keep_new-firsts (p ∷ seen) ps ∙ sym (without_both seen p (firsts ps) fresh)))
  ]

  -- The merged list holds no peer twice, holds exactly the peers of the two sources, and is the new
  -- source's peers in the order of their first occurrences, followed by the legacy peers that the new
  -- source lacks in theirs.
  pub merge_active_portals_lem :
      (new_portals legacy_portals : List P)
      → Distinct (merge_active_portals new_portals legacy_portals)
        × ((p : P)
            → contains (merge_active_portals new_portals legacy_portals) p
              ≡ contains new_portals p || contains legacy_portals p)
        × (merge_active_portals new_portals legacy_portals
            ≡ firsts new_portals ++ without new_portals (firsts legacy_portals))
  unfolding merge_active_portals contains
  merge_active_portals_lem new legacy = (
    keep_new-Distinct [] (new ++ legacy),
    λ p. contains-keep_new [] (new ++ legacy) p ∙ contains-append new legacy p,
    keep_new-append [] new legacy
        ∙ ap (λ m. keep_new [] new ++ keep_new m legacy) (append-nil new)
        ∙ ap₂ (λ l m. l ++ m) (keep_new-firsts [] new ∙ without_none (firsts new))
            (keep_new-firsts new legacy),
  )
