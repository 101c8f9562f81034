-- ===== src/NodeCore/FeedForks.antt =====
-- packages/node-core/src/feed-forks.ts: which records of a feed are accepted, and how a forked feed is
-- quarantined and repaired. Sequences are numbers of ℕ, as the code refuses those below one; `detectedAt`
-- is the time that its text shows. The orders of `localeCompare` and of
-- `sort()` on texts are arguments of what writes a snapshot.
pub mod RepairPlan
pub mod Restore
pub mod Links
pub mod Plans
pub mod Continuity
pub mod Repair
pub mod Runs
mod Tests
use chronolog_db.Prelude.{
  ℕ, ◌+◌, ◌-◌, Ordering, compare, Bool, true, false, not, ◌&&◌, ◌||◌, Option, none, some, List, [],
  ◌∷◌, ◌++◌, map, String, ltb, nat_eq, get_last?, filter, any, sort, ◌==◌, HasEquality, ℕ_eq,
  String_eq, Option_eq, if◌then◌else◌,
}
use chronolog_db.Prelude.Map
use chronolog_db.Prelude.Map.{Map}
use chronolog_db.Prelude.Int.{ℤ, magnitude}
use chronolog_db.Bytes.{Bytes}

-- A number of milliseconds: NaN or an infinity, or a finite number, without the fraction that `new Date` cuts
-- off.
pub data Time : Type 0 where
  not_finite : Time
  milliseconds : ℤ → Time

pub record TransportRecord : Type 0 where
  pub id : String
  pub author : String
  pub sequence : ℕ
  pub previous : Option String
  pub received_at_ms : Time
  pub payload : Bytes

pub record FeedEntry : Type 0 where
  pub id : String
  pub previous : Option String

pub record FeedForkEvidence : Type 0 where
  pub feed_id : String
  pub sequence : ℕ
  pub accepted_id : String
  pub conflicting_id : String
  pub detected_at_ms : Time

pub record FeedForkSnapshot : Type 0 where
  pub feeds : List (String × List (ℕ × FeedEntry))
  pub quarantines : List FeedForkEvidence
  pub discarded_record_ids : List String

pub record FeedRepairPlan : Type 0 where
  pub feed_id : String
  pub trusted_head_id : String
  pub records : List TransportRecord

pub data ForkError : Type 0 where
  feed_record_invalid genesis_previous_invalid previous_missing : ForkError
  trusted_head_missing prefix_incomplete chain_invalid : ForkError
  not_quarantined conflict_not_resolved : ForkError
  snapshot_invalid save_failure invalid_time : ForkError

pub data Attempt {ℓ} (A : Type ℓ) : Type ℓ where
  succeeds : A → Attempt A
  throws : ForkError → Attempt A

infixl 5 ◌>>=◌ ◌>>◌
abbrev pub ◌>>=◌ {ℓ κ} : {A : Type ℓ} {B : Type κ} → Attempt A → (A → Attempt B) → Attempt B
succeeds a >>= next = next a
throws e >>= next = throws e

abbrev pub ◌>>◌ {ℓ κ} : {A : Type ℓ} {B : Type κ} → Attempt A → Attempt B → Attempt B
first >> second = first >>= λ _. second

abbrev pub demand : Bool → ForkError → Attempt (Unit {0})
demand true e = succeeds tt
demand false e = throws e

pub data Observation : Type 0 where
  was_accepted was_duplicate was_discarded was_quarantined : Observation

abbrev pub Feed : Type 0
Feed = Map ℕ FeedEntry

-- The fields of the class. `save_faults` says of each save to come whether it throws, and `saved` is
-- what an attached persistence holds.
pub record FeedForkRegistry : Type 0 where
  pub feeds : Map String Feed
  pub quarantines : Map String FeedForkEvidence
  pub discarded : List String
  pub attached : Bool
  pub save_faults : List Bool
  pub saved : Option FeedForkSnapshot

-- `Number.isFinite`
abbrev pub is_finite : Time → Bool
is_finite not_finite = false
is_finite (milliseconds n) = true

unfoldable pub validate_record : TransportRecord → Attempt (Unit {0})
validate_record r =
    demand
      (not (r.author == "" || r.id == "" || ltb r.sequence 1 || not (is_finite r.received_at_ms)))
      feed_record_invalid
    >> demand (not (r.sequence == 1 && not (r.previous == none))) genesis_previous_invalid
    >> demand (not (ltb 1 r.sequence && r.previous == none)) previous_missing

abbrev pub is_discarded : FeedForkRegistry → String → Bool
is_discarded g id = any (λ d. d == id) g.discarded

abbrev pub feed_of : FeedForkRegistry → String → Feed
feed_of g author = elim (Map.get g.feeds author) [ none ↦ [] | some feed ↦ feed ]

-- The entry that a record conflicts with: at its own sequence, before it, or behind it.
abbrev pub conflict_before : TransportRecord → Option FeedEntry → Option String
conflict_before r none = none
conflict_before r (some predecessor) =
    if r.previous == some predecessor.id then none else some predecessor.id

abbrev pub conflict_behind : TransportRecord → Option FeedEntry → Option String
conflict_behind r none = none
conflict_behind r (some successor) =
    if successor.previous == some r.id then none else some successor.id

-- `existing.id === record.id && existing.previous === previous`
abbrev pub same_entry : FeedEntry → TransportRecord → Bool
same_entry existing r = existing.id == r.id && existing.previous == r.previous

-- The largest time of a `Date`.
abbrev pub last_time_ms : ℕ
last_time_ms = 8640000000000000

-- Whether `toISOString` throws.
abbrev pub is_no_date : Time → Bool
is_no_date not_finite = true
is_no_date (milliseconds n) = ltb last_time_ms (magnitude n)

abbrev pub first_fault : List Bool → Bool
first_fault [] = false
first_fault (b ∷ faults) = b

abbrev pub other_faults : List Bool → List Bool
other_faults [] = []
other_faults (b ∷ faults) = faults

module _ (locale_order unit_order : String → String → Ordering) where
  unfoldable pub snapshot : FeedForkRegistry → FeedForkSnapshot
  snapshot g = record {
    feeds =
        map (λ f. (f.0, sort (λ a b. compare a.0 b.0) f.1))
          (sort (λ a b. locale_order a.0 b.0) g.feeds);
    quarantines = sort (λ a b. locale_order a.feed_id b.feed_id) (Map.values g.quarantines);
    discarded_record_ids = sort unit_order g.discarded;
  }

  -- `#save()`: what follows it in the code is its answer `a`, unless it throws.
  unfoldable pub save {ℓ} : {A : Type ℓ} → A → FeedForkRegistry → Attempt A × FeedForkRegistry
  unfolding snapshot
  save a g =
      if g.attached
      then (
        if first_fault g.save_faults then throws save_failure else succeeds a,
        record g {
          save_faults = other_faults g.save_faults;
          saved = if first_fault g.save_faults then g.saved else some (snapshot g);
        },
      )
      else (succeeds a, g)

  -- `#quarantine`, and the answer of `observe` behind it. `toISOString` throws at a time beyond the last.
  unfoldable pub quarantine :
      TransportRecord → String → FeedForkRegistry → Attempt Observation × FeedForkRegistry
  quarantine r accepted_id g =
      if is_no_date r.received_at_ms
      then (throws invalid_time, g)
      else save was_quarantined (record g {
        quarantines = Map.set g.quarantines r.author (record {
          feed_id = r.author;
          sequence = r.sequence;
          accepted_id = accepted_id;
          conflicting_id = r.id;
          detected_at_ms = r.received_at_ms;
        });
      })

  -- The end of `observe`, at the feed of the author.
  unfoldable pub observe_new :
      TransportRecord → Feed → FeedForkRegistry → Attempt Observation × FeedForkRegistry
  observe_new r feed g = elim (conflict_before r (Map.get feed (r.sequence - 1))) [
    | some accepted_id ↦ quarantine r accepted_id g
    | none ↦ elim (conflict_behind r (Map.get feed (r.sequence + 1))) [
      | some accepted_id ↦ quarantine r accepted_id g
      | none ↦ save was_accepted (record g {
        feeds =
            Map.set g.feeds r.author
              (Map.set feed r.sequence (record { id = r.id; previous = r.previous }));
      })
    ]
  ]

  unfoldable pub observe_in :
      TransportRecord → Feed → FeedForkRegistry → Attempt Observation × FeedForkRegistry
  observe_in r feed g = elim (Map.get feed r.sequence) [
    | some existing ↦
        if same_entry existing r then (succeeds was_duplicate, g) else quarantine r existing.id g
    | none ↦ observe_new r feed g
  ]

  unfoldable pub observe :
      TransportRecord → FeedForkRegistry → Attempt Observation × FeedForkRegistry
  observe r g = elim (validate_record r) [
    | throws e ↦ (throws e, g)
    | succeeds _ ↦
        if is_discarded g r.id
        then (succeeds was_discarded, g)
        else if Map.has g.quarantines r.author
        then (succeeds was_quarantined, g)
        else observe_in r (feed_of g r.author)
            (record g { feeds = Map.set g.feeds r.author (feed_of g r.author) })
  ]
