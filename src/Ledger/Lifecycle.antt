-- ===== src/Ledger/Lifecycle.antt =====
-- Any sequence of calls of the doors of agent/core/ledger.py keeps the session well formed.
use text.Mathlib.Text.{◌==◌}
use luca_py.Base.{
  ℕ, String, ◌≡◌, refl, sym, ap, subst, ◌∙◌, inl, inr, Option, none, some, arith, any, Bool-cases,
  Option-cases,
}
use luca_py.Base.Dict.{Dict, get, put, contains}
use luca_py.Models.Content.{Usage}
use luca_py.Models.Tools.{ToolSpec}
use luca_py.Models.Entries.{Entry, PrunedEntry}
use luca_py.Models.Session.{AgentSession}
use luca_py.Ledger.{Ledger, conversation, append, put_entry, refresh_entry}
use luca_py.Ledger.Records.{Counters, usages_of, usage_of, write_usage, record_usage, prune}
use luca_py.Ledger.Transition.{Transition, transition_conversation}
use luca_py.Ledger.Invariant.{IsWellFormed, Present, get-put_cases}
use luca_py.Ledger.Append.{Stamps, append-IsWellFormed}
use luca_py.Ledger.Updates.{put_entry-IsWellFormed, refresh_entry-IsWellFormed}
use luca_py.Ledger.Pruning.{StampsPruned, prune-IsWellFormed}
use luca_py.Ledger.Archiving.{transition-IsWellFormed}
use luca_py.Ledger.Archiving.Batch.{Resolves}

get-usages_of :
    (o : Option (Dict Usage)) (id : String) (u : Usage)
    → get (usages_of o) id ≡ some u
    → (row : Dict Usage) × (o ≡ some row) × (get row id ≡ some u)
unfolding get
get-usages_of none id u h = absurd (ground arith)
get-usages_of (some row) id u h = (row, refl, h)

module _ (digest : ToolSpec → String) where
  write_usage-IsWellFormed :
      (cid eid : String) (usage : Usage) (session : AgentSession)
      → usage.conversation_id ≡ cid
      → usage.entry_id ≡ eid
      → Present session eid
      → IsWellFormed digest session
      → IsWellFormed digest (write_usage cid eid usage session)
  unfolding write_usage
  write_usage-IsWellFormed cid eid usage session same_c same_e there wf = record {
    paths = wf.paths;
    named = wf.named;
    keyed = wf.keyed;
    filed = wf.filed;
    hashed = wf.hashed;
    main = wf.main;
    used = λ c row id u h g.
        elim (get-put_cases session.usages cid c
          (put (usages_of (get session.usages cid)) eid usage) row h) [
            | inr old ↦ wf.used c row id u old g
            | inl p ↦
                let g' : get (put (usages_of (get session.usages cid)) eid usage) id ≡ some u =
                  subst (λ d. get d id ≡ some u) (sym p.1) g in
                elim (get-put_cases (usages_of (get session.usages cid)) eid id usage u g') [
                  | inl q ↦ (
                    ap (λ (x : Usage). x.conversation_id) (sym q.1) ∙ (same_c ∙ p.0),
                    ap (λ (x : Usage). x.entry_id) (sym q.1) ∙ (same_e ∙ q.0),
                    subst (Present session) q.0 there,
                  )
                  | inr older ↦
                      let (r, e, f) = get-usages_of (get session.usages cid) id u older in
                      let (a, b, k) = wf.used cid r id u e f in (a ∙ p.0, b, k)
                ]
          ];
  }

  record_usage-IsWellFormed :
      (cid eid : String) (requests : Option (Dict ℕ)) (counters : Counters) (l : Ledger)
      → IsWellFormed digest l.session
      → IsWellFormed digest (record_usage cid eid requests counters l).1.session
  unfolding record_usage conversation
  record_usage-IsWellFormed cid eid requests counters l wf =
      elim (Option-cases (get l.session.conversations cid)) [
        | inl h ↦ rw (h, record_usage, conversation) wf
        | inr (c, found) ↦ elim (Bool-cases (contains l.session.entries eid)) [
          | inr absent ↦ rw (found, record_usage, conversation) (rw absent wf)
          | inl there ↦ elim (Bool-cases (any (λ node. node == eid) c.nodes)) [
            | inr off ↦ rw (found, record_usage, conversation) (rw there (rw off wf))
            | inl on ↦
                rw (found, record_usage, conversation)
                  (rw there (
                    rw on (
                      write_usage-IsWellFormed c.id eid (usage_of c.id eid requests counters)
                        l.session (unfold usage_of in refl) (unfold usage_of in refl) there wf)))
          ]
        ]
      ]

  -- One call of a door, whatever it returns or raises. The callbacks stamp the id that they are
  -- handed, and the path of a transition resolves.
  pub data Door (l : Ledger) : Ledger → Type 0 where
    appended :
        (cid : String) (build : String → Option String → ℕ → Entry)
        → Stamps build
        → Door l (append digest cid build l).1
    updated : (cid : String) (entry : Entry) → Door l (put_entry digest cid entry l).1
    refreshed : (entry : Entry) → Door l (refresh_entry digest entry l).1
    transitioned :
        (cid : String) (t : Transition)
        → Resolves l.session t
        → Door l (transition_conversation digest cid t l).1
    recorded :
        (cid eid : String) (requests : Option (Dict ℕ)) (counters : Counters)
        → Door l (record_usage cid eid requests counters l).1
    was_pruned :
        (cid original_id : String) (build : String → Option String → ℕ → PrunedEntry)
        → StampsPruned build
        → Door l (prune cid original_id build l).1

  pub data Reaches (l : Ledger) : Ledger → Type 0 where
    here : Reaches l l
    next : {m n : Ledger} → Reaches l m → Door m n → Reaches l n

  Door-IsWellFormed :
      {l m : Ledger} → Door l m → IsWellFormed digest l.session → IsWellFormed digest m.session
  Door-IsWellFormed {l} (appended cid build stamps) wf =
      append-IsWellFormed digest cid build l stamps wf
  Door-IsWellFormed {l} (updated cid entry) wf = put_entry-IsWellFormed digest cid entry l wf
  Door-IsWellFormed {l} (refreshed entry) wf = refresh_entry-IsWellFormed digest entry l wf
  Door-IsWellFormed {l} (transitioned cid t resolves) wf =
      transition-IsWellFormed digest cid t l resolves wf
  Door-IsWellFormed {l} (recorded cid eid requests counters) wf =
      record_usage-IsWellFormed cid eid requests counters l wf
  Door-IsWellFormed {l} (was_pruned cid original_id build stamps) wf =
      prune-IsWellFormed digest cid original_id build l stamps wf

  -- Whatever doors are called, in whatever order, and whether they return or raise, a well-formed
  -- session stays well formed: every node of every path is stored, every row of a store stands under
  -- its own id, every stored execution points at the stored spec that its id names, every spec
  -- stands under its hash, the main pointer resolves, and every usage record agrees with its keys
  -- and names a stored entry. The callbacks stamp the id that they are handed, and each path given
  -- to a transition resolves.
  pub Reaches-IsWellFormed :
      {l m : Ledger} → IsWellFormed digest l.session → Reaches l m → IsWellFormed digest m.session
  Reaches-IsWellFormed wf here = wf
  Reaches-IsWellFormed wf (next r d) = Door-IsWellFormed d (Reaches-IsWellFormed wf r)
