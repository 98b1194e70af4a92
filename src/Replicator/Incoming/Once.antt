-- ===== src/Replicator/Incoming/Once.antt =====
-- An event that was received is not applied again.
use ironbucket.Base.{
  ◌≡◌, refl, sym, ap, subst, ◌∙◌, ℕ, Bool, true, false, Option, List, [], ◌∷◌, All, In, ◌==◌,
  Bool-cases, inl, inr, arith,
}
use ironbucket.Base.Text.{Text, text_eq_refl}
use ironbucket.Paths.{Tree, PathBuf}
use ironbucket.Replicator.{WalEntry}
use ironbucket.Replicator.Incoming.{
  event_seen, apply_operation, receive_entry, handle_incoming_replication,
}

abbrev Event : Type 0
Event = Text × ℕ

-- The event of every entry was seen.
abbrev AllSeen : List Event → List WalEntry → Type 0
AllSeen seen entries = All (λ e. event_seen (e.node_id, e.sequence_id) seen ≡ true) entries

event_seen-head : (event : Event) (seen : List Event) → event_seen event (event ∷ seen) ≡ true
unfolding event_seen
event_seen-head event seen =
    let same : (event.1 == event.1) ≡ true = ground arith in rw (text_eq_refl event.0, same) refl

event_seen-more :
    (event other : Event) (seen : List Event)
    → event_seen event seen ≡ true
    → event_seen event (other ∷ seen) ≡ true
unfolding event_seen
event_seen-more event other seen h = ground arith

AllSeen-In :
    (seen : List Event) (es : List WalEntry) (e : WalEntry)
    → AllSeen seen es
    → In e es
    → event_seen (e.node_id, e.sequence_id) seen ≡ true
AllSeen-In seen [] e h i = elim i [ ]
AllSeen-In seen (f ∷ es) e h (inl same) =
    ap (λ (g : WalEntry). event_seen (g.node_id, g.sequence_id) seen) same ∙ h.0
AllSeen-In seen (f ∷ es) e h (inr i) = AllSeen-In seen es e h.1 i

AllSeen-among :
    (seen : List Event) (es later : List WalEntry)
    → AllSeen seen es
    → All (λ e. In e es) later
    → AllSeen seen later
AllSeen-among seen es [] h among = tt
AllSeen-among seen es (e ∷ later) h among =
    (AllSeen-In seen es e h among.0, AllSeen-among seen es later h among.1)

module _ (http_get : Text → Option Text) (cluster_nodes : List Text) (storage : PathBuf) where
  abbrev receive : WalEntry → List Event → Tree → List Event × (Tree × Bool)
  receive = receive_entry http_get cluster_nodes storage

  abbrev handle : List WalEntry → List Event → Tree → List Event × (Tree × Bool)
  handle = handle_incoming_replication http_get cluster_nodes storage

  receive_entry-more :
      (e : WalEntry) (seen : List Event) (t : Tree) (event : Event)
      → event_seen event seen ≡ true
      → event_seen event (receive e seen t).0 ≡ true
  unfolding receive_entry
  receive_entry-more e seen t event h =
      elim (Bool-cases (event_seen (e.node_id, e.sequence_id) seen)) [
        | inl f ↦ rw (receive_entry, f) h
        | inr f ↦ elim (Bool-cases (apply_operation http_get cluster_nodes storage e t).1) [
          | inl g ↦
              rw (receive_entry, f, g) (event_seen-more event (e.node_id, e.sequence_id) seen h)
          | inr g ↦ rw (receive_entry, f, g) h
        ]
      ]

  receive_entry-seen :
      (e : WalEntry) (seen : List Event) (t : Tree)
      → (receive e seen t).1.1 ≡ true
      → event_seen (e.node_id, e.sequence_id) (receive e seen t).0 ≡ true
  unfolding receive_entry
  receive_entry-seen e seen t h = elim (Bool-cases (event_seen (e.node_id, e.sequence_id) seen)) [
    | inl f ↦ rw (receive_entry, f) f
    | inr f ↦ elim (Bool-cases (apply_operation http_get cluster_nodes storage e t).1) [
      | inl g ↦ rw (receive_entry, f, g) (event_seen-head (e.node_id, e.sequence_id) seen)
      | inr g ↦ let k : false ≡ true = rw (receive_entry, f, g) at h in absurd (cc)
    ]
  ]

  receive_entry-skip :
      (e : WalEntry) (seen : List Event) (t : Tree)
      → event_seen (e.node_id, e.sequence_id) seen ≡ true
      → receive e seen t ≡ (seen, (t, true))
  unfolding receive_entry
  receive_entry-skip e seen t h = rw (receive_entry, h) refl

  handle-step :
      (e : WalEntry) (es : List WalEntry) (seen : List Event) (t : Tree)
      → (receive e seen t).1.1 ≡ true
      → handle (e ∷ es) seen t ≡ handle es (receive e seen t).0 (receive e seen t).1.0
  unfolding handle_incoming_replication
  handle-step e es seen t h = rw (handle_incoming_replication, h) refl

  handle-more :
      (es : List WalEntry) (seen : List Event) (t : Tree) (event : Event)
      → event_seen event seen ≡ true
      → event_seen event (handle es seen t).0 ≡ true
  unfolding handle_incoming_replication
  handle-more [] seen t event h = h
  handle-more (e ∷ es) seen t event h =
      let more = receive_entry-more e seen t event h in
      elim (Bool-cases (receive e seen t).1.1) [
        | inl f ↦
            rw (handle_incoming_replication, f)
              (handle-more es (receive e seen t).0 (receive e seen t).1.0 event more)
        | inr f ↦ rw (handle_incoming_replication, f) more
      ]

  handle-AllSeen :
      (es : List WalEntry) (seen : List Event) (t : Tree)
      → (handle es seen t).1.1 ≡ true
      → AllSeen (handle es seen t).0 es
  unfolding handle_incoming_replication
  handle-AllSeen [] seen t h = tt
  handle-AllSeen (e ∷ es) seen t h = elim (Bool-cases (receive e seen t).1.1) [
    | inl f ↦
        let seen' = (receive e seen t).0 in
        let u = (receive e seen t).1.0 in
        let same = handle-step e es seen t f in
        let rest_ok : (handle es seen' u).1.1 ≡ true = ap (λ o. o.1.1) (sym same) ∙ h in
        subst (λ (o : List Event × (Tree × Bool)). AllSeen o.0 (e ∷ es)) (sym same)
          (
            handle-more es seen' u (e.node_id, e.sequence_id) (receive_entry-seen e seen t f),
            handle-AllSeen es seen' u rest_ok,
          )
    | inr f ↦ let k : false ≡ true = rw (handle_incoming_replication, f) at h in absurd (cc)
  ]

  handle-skip :
      (es : List WalEntry) (seen : List Event) (t : Tree)
      → AllSeen seen es
      → handle es seen t ≡ (seen, (t, true))
  unfolding handle_incoming_replication
  handle-skip [] seen t h = refl
  handle-skip (e ∷ es) seen t h =
      rw (handle_incoming_replication, receive_entry-skip e seen t h.0) (handle-skip es seen t h.1)

  -- Where the entries of a delivery were all received, a later delivery of entries that were among
  -- them succeeds, whatever stands on disk by then, and changes neither the files nor the events that
  -- were seen.
  pub handle_incoming_replication-again :
      (es later : List WalEntry) (seen : List Event) (t u : Tree)
      → (handle es seen t).1.1 ≡ true
      → All (λ e. In e es) later
      → handle later (handle es seen t).0 u ≡ ((handle es seen t).0, (u, true))
  handle_incoming_replication-again es later seen t u h among =
      handle-skip later (handle es seen t).0 u
        (AllSeen-among (handle es seen t).0 es later (handle-AllSeen es seen t h) among)
