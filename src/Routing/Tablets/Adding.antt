-- ===== src/Routing/Tablets/Adding.antt =====
-- `add_tablet`: the new tablet replaces the ones that overlap it.
use scylla_rust_driver.Prelude.{
  ℕ, zero, suc, ◌≤◌, ◌≡◌, refl, Bool, true, false, ◌&&◌, Option, none, some, List, [], ◌∷◌, ◌++◌,
  if◌then◌else◌, take, drop, All, arith, Bool-cases, inl, inr, ltb→lt, ltb→le, le→ltb, lt→ltb, ◌<◌,
  ◌||◌,
}
use mathlib.Core.Path.{subst}
use scylla_rust_driver.Prelude.Int.{ℤ, ltb_ℤ, leb_ℤ, ◌≤ℤ◌, ◌<ℤ◌}
use scylla_rust_driver.Routing.Tablets.Replicas.{Tablet}
use scylla_rust_driver.Routing.Tablets.Table.{TableTablets, partition_point, is_some, add_tablet}
use scylla_rust_driver.Routing.Tablets.Ranges.{
  IsRange, Behind, IsOrdered, covers, find_covering, find_covering-Behind,
}

abbrev left_of : Tablet → List Tablet → ℕ
left_of new = partition_point (λ (t : Tablet). ltb_ℤ t.last_token new.first_token)

abbrev right_of : Tablet → List Tablet → ℕ
right_of new = partition_point (λ (t : Tablet). leb_ℤ t.first_token new.last_token)

abbrev pub overlaps : Tablet → Tablet → Bool
overlaps new t = leb_ℤ new.first_token t.last_token && leb_ℤ t.first_token new.last_token

abbrev pub unless_overlapping : Tablet → Option Tablet → Option Tablet
unless_overlapping new none = none
unless_overlapping new (some t) = if overlaps new t then none else some t

-- The list after the call.
abbrev replaced : Tablet → List Tablet → List Tablet
replaced new l = take (left_of new l) l ++ new ∷ drop (right_of new l) l

abbrev Before : List Tablet → ℤ → Type 0
Before l token = All (λ (t : Tablet). t.last_token <ℤ token) l

left_le_right :
    (new : Tablet) (l : List Tablet) → IsRange new → IsOrdered l → left_of new l ≤ right_of new l
unfolding partition_point
left_le_right new [] r h = omega arith
left_le_right new (t ∷ ts) r h = ground (arith, left_le_right new ts r h.2)

IsOrdered-drop : (n : ℕ) (l : List Tablet) → IsOrdered l → IsOrdered (drop n l)
IsOrdered-drop zero l h = h
IsOrdered-drop (suc n) [] h = tt
IsOrdered-drop (suc n) (t ∷ ts) h = IsOrdered-drop n ts h.2

Behind-drop : (a : ℤ) (n : ℕ) (l : List Tablet) → Behind a l → Behind a (drop n l)
Behind-drop a zero l h = h
Behind-drop a (suc n) [] h = tt
Behind-drop a (suc n) (t ∷ ts) h = Behind-drop a n ts h.1

Behind-trans : (a b : ℤ) (l : List Tablet) → a ≤ℤ b → Behind b l → Behind a l
Behind-trans a b [] h k = tt
Behind-trans a b (t ∷ ts) h k = (omega arith, Behind-trans a b ts h k.1)

Behind-right :
    (new : Tablet) (l : List Tablet) → IsOrdered l → Behind new.last_token (drop (right_of new l) l)
unfolding partition_point
Behind-right new [] h = tt
Behind-right new (t ∷ ts) h =
    ground (arith, Behind-right new ts h.2, Behind-trans new.last_token t.last_token ts)

Behind-splice :
    (a : ℤ) (n : ℕ) (l r : List Tablet) → Behind a l → Behind a r → Behind a (take n l ++ r)
Behind-splice a zero l r h k = k
Behind-splice a (suc n) [] r h k = k
Behind-splice a (suc n) (t ∷ ts) r h k = (h.0, Behind-splice a n ts r h.1 k)

module _ (new t : Tablet) (ts : List Tablet) (r : IsRange new) (h : IsOrdered (t ∷ ts)) where
  -- What the call does to a list, by its first tablet.
  replaced_past :
      ltb_ℤ t.last_token new.first_token ≡ true → replaced new (t ∷ ts) ≡ t ∷ replaced new ts
  unfolding partition_point
  replaced_past past =
      let under : leb_ℤ t.first_token new.last_token ≡ true = ground arith in rw (past, under)

  replaced_here :
      ltb_ℤ t.last_token new.first_token ≡ false
      → replaced new (t ∷ ts) ≡ new ∷ drop (right_of new (t ∷ ts)) (t ∷ ts)
  unfolding partition_point
  replaced_here here = rw here

IsOrdered-replaced :
    (new : Tablet) (l : List Tablet) → IsRange new → IsOrdered l → IsOrdered (replaced new l)
IsOrdered-replaced new [] r h = unfold partition_point in (r, tt, tt)
IsOrdered-replaced new (t ∷ ts) r h = elim (Bool-cases (ltb_ℤ t.last_token new.first_token)) [
  | inl past ↦ rw (replaced_past new t ts r h past) (
    h.0,
    Behind-splice t.last_token (left_of new ts) ts _ h.1
        (omega (arith, ltb→lt _ _ past), Behind-drop t.last_token (right_of new ts) ts h.1),
    IsOrdered-replaced new ts r h.2,
  )
  | inr here ↦
      rw (replaced_here new t ts r h here)
        (r, Behind-right new (t ∷ ts) h, IsOrdered-drop (right_of new (t ∷ ts)) (t ∷ ts) h)
]

abbrev AllFrom : ℤ → List Tablet → Type 0
AllFrom token = All (λ (t : Tablet). token ≤ℤ t.last_token)

-- Tablets that start behind the new one do not overlap it.
find_covering-beyond :
    (new : Tablet) (token : ℤ) (l : List Tablet)
    → Behind new.last_token l
    → unless_overlapping new (find_covering token l) ≡ find_covering token l
unfolding find_covering
find_covering-beyond new token [] h = refl
find_covering-beyond new token (t ∷ ts) h = ground (arith, find_covering-beyond new token ts h.1)

-- Among tablets that end behind the start of the new one, the ones kept are those that do not
-- overlap it.
find_covering-drop :
    (new : Tablet) (token : ℤ) (l : List Tablet)
    → IsOrdered l
    → AllFrom new.first_token l
    → find_covering token (drop (right_of new l) l) ≡ unless_overlapping new (find_covering token l)
unfolding find_covering partition_point
find_covering-drop new token [] h k = refl
find_covering-drop new token (t ∷ ts) h k = ground (
  arith,
  find_covering-drop new token ts h.2 k.1,
  find_covering-beyond new token ts,
  Behind-trans new.last_token t.last_token ts,
  find_covering-Behind token ts,
  Behind-trans token t.last_token ts,
)

AllFrom-ordered : (a b : ℤ) (l : List Tablet) → a ≤ℤ b → IsOrdered l → Behind b l → AllFrom a l
AllFrom-ordered a b [] h o k = tt
AllFrom-ordered a b (t ∷ ts) h o k = (omega (arith, o.0), AllFrom-ordered a b ts h o.2 k.1)

find_past :
    (new t : Tablet) (token : ℤ) (ts : List Tablet)
    → ltb_ℤ t.last_token new.first_token ≡ true
    → find_covering token (replaced new ts)
      ≡ (if covers token new then some new else unless_overlapping new (find_covering token ts))
    → find_covering token (t ∷ replaced new ts) ≡ (
        if covers token new
        then some new
        else unless_overlapping new (find_covering token (t ∷ ts)))
unfolding find_covering
find_past new t token ts past ih = ground arith

find_here :
    (new : Tablet) (token : ℤ) (l : List Tablet)
    → IsOrdered l
    → AllFrom new.first_token l
    → find_covering token (new ∷ drop (right_of new l) l)
      ≡ (if covers token new then some new else unless_overlapping new (find_covering token l))
unfolding find_covering
find_here new token l h k = ground (arith, find_covering-drop new token l h k)

find_covering-replaced :
    (new : Tablet) (token : ℤ) (l : List Tablet)
    → IsRange new
    → IsOrdered l
    → find_covering token (replaced new l)
      ≡ (if covers token new then some new else unless_overlapping new (find_covering token l))
find_covering-replaced new token [] r h = unfold partition_point find_covering in refl
find_covering-replaced new token (t ∷ ts) r h =
    elim (Bool-cases (ltb_ℤ t.last_token new.first_token)) [
      | inl past ↦
          rw (replaced_past new t ts r h past)
            (find_past new t token ts past (find_covering-replaced new token ts r h.2))
      | inr here ↦ rw (replaced_here new t ts r h here) (
          find_here new token (t ∷ ts) h (
            omega (arith, ltb→le _ _ here),
            AllFrom-ordered new.first_token t.last_token ts (omega (arith, ltb→le _ _ here)) h.2
                h.1,
          ))
    ]

-- `s'` is `s` with `tablet` in the place of the tablets that overlap it: it is ordered, the tokens
-- of the new tablet find it, a token whose tablet overlapped the new one finds nothing, every other
-- token finds what it did before, and the flag is set if it was or the new tablet has replicas that
-- are not known.
pub record Added (s : TableTablets) (tablet : Tablet) (s' : TableTablets) : Type 0 where
  pub ordered : IsOrdered s'.tablet_list
  pub finds :
      (token : ℤ)
      → find_covering token s'.tablet_list ≡ (
          if covers token tablet
          then some tablet
          else unless_overlapping tablet (find_covering token s.tablet_list))
  pub flag : s'.has_unknown_replicas ≡ (is_some tablet.failed || s.has_unknown_replicas)

-- On an ordered table, adding a tablet whose range is not empty does not panic, and the result is
-- `Added`: the table stays ordered, the tokens of the new tablet find it, a token whose tablet
-- overlapped the new one finds nothing, every other token finds what it did before, and the flag is
-- set exactly if it was or the new tablet has replicas that are not known.
pub add_tablet-Added :
    (s : TableTablets) (tablet : Tablet)
    → IsOrdered s.tablet_list
    → IsRange tablet
    → (s' : TableTablets) × (add_tablet s tablet ≡ some s') × Added s tablet s'
unfolding add_tablet
add_tablet-Added s tablet h r =
    let fits =
      le→ltb (right_of tablet s.tablet_list) (left_of tablet s.tablet_list)
        (left_le_right tablet s.tablet_list r h) in
    (
      record {
        tablet_list = replaced tablet s.tablet_list;
        has_unknown_replicas = if is_some tablet.failed then true else s.has_unknown_replicas;
      },
      rw fits,
      record {
        ordered = IsOrdered-replaced tablet s.tablet_list r h;
        finds = λ token. find_covering-replaced tablet token s.tablet_list r h;
        flag = ground arith;
      },
    )

module _ (new t : Tablet) (after : List Tablet) where
  Behind-append : (a : ℤ) (l : List Tablet) → Behind a (l ++ t ∷ after) → a <ℤ t.first_token
  Behind-append a [] h = h.0
  Behind-append a (x ∷ l) h = Behind-append a l h.1

  -- The bounds of `drain` are out of order.
  right_lt_left :
      (l : List Tablet)
      → IsOrdered (l ++ t ∷ after)
      → new.last_token <ℤ t.first_token
      → t.last_token <ℤ new.first_token
      → (right_of new (l ++ t ∷ after) < left_of new (l ++ t ∷ after)) × IsRange t
  unfolding partition_point
  right_lt_left [] h below above = ground (arith, h.0)
  right_lt_left (x ∷ l) h below above =
      let (less, range) = right_lt_left l h.2 below above in
      ground (arith, less, range, Behind-append x.last_token l h.1)

-- On an ordered table, a tablet whose last token is below its first one makes the call panic, if
-- the table has a tablet strictly between the two.
pub add_tablet_inverted :
    (s : TableTablets) (tablet t : Tablet) (before after : List Tablet)
    → s.tablet_list ≡ before ++ t ∷ after
    → IsOrdered s.tablet_list
    → tablet.last_token <ℤ t.first_token
    → t.last_token <ℤ tablet.first_token
    → add_tablet s tablet ≡ none
unfolding add_tablet
add_tablet_inverted s tablet t before after e h below above =
    let less = (right_lt_left tablet t after before (subst IsOrdered e h) below above).0 in
    rw (e, lt→ltb _ _ less) refl
