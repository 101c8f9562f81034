-- ===== src/NodeCore/FeedForks/Links.antt =====
-- For packages/node-core/src/feed-forks.ts: linked feeds, and the writes that keep them linked.
use chronolog_db.Prelude.{
  ℕ, ◌+◌, ◌-◌, ◌≤◌, ◌≡◌, ◌⊎◌, refl, ap, sym, ◌∙◌, nat_eq, false, Option, none, some, [], String,
  arith, Bool-cases, inl, inr, ◌==◌, ℕ_eq, String_eq, Option_eq, subst, option_beq_iff,
}
use chronolog_db.Prelude.Map
use chronolog_db.Prelude.Map.{Map}
use chronolog_db.NodeCore.FeedForks.{
  TransportRecord, FeedEntry, Feed, FeedForkRegistry, Attempt, ForkError, succeeds, throws, feed_of,
  conflict_before, conflict_behind,
}

-- A record that follows an accepted record names it as its previous one.
abbrev pub IsLinked : Feed → Type 0
IsLinked feed =
    (n : ℕ) (a b : FeedEntry)
    → Map.get feed n ≡ some a
    → Map.get feed (n + 1) ≡ some b
    → b.previous ≡ some a.id

abbrev pub fallback : Option Feed → Feed
fallback none = []
fallback (some feed) = feed

abbrev pub feed_in : Map String Feed → String → Feed
feed_in feeds author = fallback (Map.get feeds author)

-- Every feed is linked.
abbrev pub AreLinked : Map String Feed → Type 0
AreLinked feeds = (author : String) → IsLinked (feed_in feeds author)

unfoldable pub IsContinuous : FeedForkRegistry → Type 0
IsContinuous g = AreLinked g.feeds

-- What is found after a write is the written entry, or was there before.
pub found-set :
    (feed : Feed) (k n : ℕ) (e x : FeedEntry)
    → Map.get (Map.set feed k e) n ≡ some x
    → ((k ≡ n) × (e ≡ x)) ⊎ (Map.get feed n ≡ some x)
found-set feed k n e x h = elim (Bool-cases (nat_eq k n)) [
  | inl same ↦ inl (ground arith, ground (arith, Map.get-set feed k n e, same, h))
  | inr other ↦ inr (ground (arith, Map.get-set feed k n e, other, h))
]

-- A new entry that fits its neighbors keeps a feed linked.
pub IsLinked-set :
    (feed : Feed) (sequence : ℕ) (e : FeedEntry)
    → IsLinked feed
    → ((a : FeedEntry)
        → Map.get feed (sequence - 1) ≡ some a
        → 1 ≤ sequence
        → e.previous ≡ some a.id)
    → ((b : FeedEntry) → Map.get feed (sequence + 1) ≡ some b → b.previous ≡ some e.id)
    → IsLinked (Map.set feed sequence e)
IsLinked-set feed sequence e linked before behind n a b at next =
    elim (found-set feed sequence n e a at) [
      | inl (here, mine) ↦ elim (found-set feed sequence (n + 1) e b next) [
        | inl (there, yours) ↦ absurd (omega arith)
        | inr old ↦
            let place : n + 1 ≡ sequence + 1 = omega arith in
            let link = behind b (ap (Map.get feed) (sym place) ∙ old) in
            subst (λ z. b.previous ≡ some z.id) mine link
      ]
      | inr old_a ↦ elim (found-set feed sequence (n + 1) e b next) [
        | inl (there, yours) ↦
            let place : sequence - 1 ≡ n = omega arith in
            let link = before a (ap (Map.get feed) place ∙ old_a) (omega arith) in
            subst (λ z. z.previous ≡ some a.id) yours link
        | inr old_b ↦ linked n a b old_a old_b
      ]
    ]

pub get_same :
    (feeds : Map String Feed) (author other : String) (next : Feed)
    → (author == other) ≡ false
    → Map.get feeds other ≡ Map.get (Map.set feeds author next) other
get_same feeds author other next differs =
    ground (arith, Map.get-set feeds author other next, differs)

pub AreLinked-set :
    (feeds : Map String Feed) (author : String) (next : Feed)
    → AreLinked feeds
    → IsLinked next
    → AreLinked (Map.set feeds author next)
AreLinked-set feeds author next all linked other =
    let found = Map.get-set feeds author other next in
    elim (Bool-cases (author == other)) [
      | inl same ↦
          let here : next ≡ feed_in (Map.set feeds author next) other =
            ground (arith, found, same) in
          subst IsLinked here linked
      | inr differs ↦
          let there : feed_in feeds other ≡ feed_in (Map.set feeds author next) other =
            ap fallback (get_same feeds author other next differs) in
          subst IsLinked there (all other)
    ]

pub fallback_lem : (o : Option Feed) → fallback o ≡ elim o [ none ↦ [] | some feed ↦ feed ]
fallback_lem none = refl
fallback_lem (some feed) = refl

pub feed_of-IsLinked :
    (g : FeedForkRegistry) (author : String) → AreLinked g.feeds → IsLinked (feed_of g author)
feed_of-IsLinked g author h = subst IsLinked (fallback_lem (Map.get g.feeds author)) (h author)

pub Attempt-cases {ℓ} :
    {A : Type ℓ} (m : Attempt A) → ((a : A) × (m ≡ succeeds a)) ⊎ ((e : ForkError) × (m ≡ throws e))
Attempt-cases (succeeds a) = inl (a, refl)
Attempt-cases (throws e) = inr (e, refl)

pub fits_before :
    (r : TransportRecord) (o : Option FeedEntry) (a : FeedEntry)
    → conflict_before r o ≡ none
    → o ≡ some a
    → r.previous ≡ some a.id
fits_before r none a h e = cc
fits_before r (some b) a h e =
    let same : b ≡ a = ground arith in
    let equal = option_beq_iff r.previous (some b.id) in
    subst (λ z. r.previous ≡ some z.id) same (ground (arith, equal.0, h))

pub fits_behind :
    (r : TransportRecord) (o : Option FeedEntry) (b : FeedEntry)
    → conflict_behind r o ≡ none
    → o ≡ some b
    → b.previous ≡ some r.id
fits_behind r none b h e = cc
fits_behind r (some c) b h e =
    let same : c ≡ b = ground arith in
    let equal = option_beq_iff c.previous (some r.id) in
    subst (λ z. z.previous ≡ some r.id) same (ground (arith, equal.0, h))
