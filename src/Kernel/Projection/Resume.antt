-- ===== src/Kernel/Projection/Resume.antt =====
-- Replays from a checkpoint, beside replays from the start.
use blackcell.Prelude.{
  ltb, Outcome-cases, eq_refl, true, false, ℕ, ◌≤◌, ◌+◌, ◌≡◌, refl, List, [], ◌∷◌, ◌++◌, none, some,
  Option-cases, inl, inr, arith, ok, err, ◌>>=◌, >>=-eq-ok,
}
use blackcell.Host.{Host, DateTime, json_digest}
use blackcell.Kernel.Errors.{Result}
use blackcell.Kernel.Event.{EventEnvelope, is_blank}
use blackcell.Kernel.Projection.{
  Projection, Progress, ReplayResult, replay_step, replay_event, replay_loop, replay_start, replay,
  ProjectionCheckpoint, new_checkpoint, checkpoint_of, validate_checkpoint,
}

module _ {S : Type 0} (projection : Projection S) where
  replay_loop-append :
      (p : Progress S) (es more : List EventEnvelope)
      → replay_loop projection none p (es ++ more)
        ≡ (replay_loop projection none p es >>= λ q. replay_loop projection none q more)
  unfolding replay_loop
  replay_loop-append p [] more = refl
  replay_loop-append p (e ∷ es) more =
      go (replay_step projection none p e) (λ q. replay_loop-append q es more)
    where
      go :
          (r : Result (Progress S))
          → ((q : Progress S)
              → replay_loop projection none q (es ++ more)
                ≡ (replay_loop projection none q es >>= λ t. replay_loop projection none t more))
          → (r >>= λ q. replay_loop projection none q (es ++ more)) ≡ (
              (r >>= λ q. replay_loop projection none q es) >>= λ t.
              replay_loop projection none t more)
      go (ok q) ih = ih q
      go (err x) ih = refl

  -- A run that never skipped has read up to its last position.
  caught_up :
      (p : Progress S) (es : List EventEnvelope) {q : Progress S}
      → p.previous_input_position ≡ p.last_position
      → replay_loop projection none p es ≡ ok q
      → q.previous_input_position ≡ q.last_position
  unfolding replay_loop replay_step replay_event
  caught_up p [] h e = ground arith
  caught_up p (x ∷ es) {q} h e =
      let (r, step, rest) =
        >>=-eq-ok (replay_step projection none p x) (λ q. replay_loop projection none q es) e in
      caught_up r es (ground arith) rest

  -- `b` is as far as `a`, has the same state, and has counted `skipped` events less.
  record Agrees (skipped : ℕ) (a b : Progress S) : Type 0 where
    state : a.state ≡ b.state
    position : a.last_position ≡ b.last_position
    cursor : b.previous_input_position ≤ a.previous_input_position
    read : a.previous_input_position ≡ a.last_position
    counted : skipped + b.processed ≡ a.processed

  step-Agrees :
      (n : ℕ) (a b : Progress S) (event : EventEnvelope) {a' : Progress S}
      → Agrees n a b
      → replay_step projection none a event ≡ ok a'
      → (b' : Progress S) × (replay_step projection none b event ≡ ok b') × Agrees n a' b'
  unfolding replay_step replay_event
  step-Agrees n a b event {a'} h e = elim (Option-cases event.global_position) [
    | inl unread ↦ ground arith
    | inr (position, found) ↦
        let b' : Progress S = record {
          state = projection.apply b.state event;
          last_position = position;
          last_sequence = some event.stream_sequence;
          processed = b.processed + 1;
          previous_input_position = position;
        } in
        (b', ground arith, ground arith)
  ]

  loop-Agrees :
      (n : ℕ) (a b : Progress S) (events : List EventEnvelope) {a' : Progress S}
      → Agrees n a b
      → replay_loop projection none a events ≡ ok a'
      → (b' : Progress S) × (replay_loop projection none b events ≡ ok b') × Agrees n a' b'
  unfolding replay_loop
  loop-Agrees n a b [] {a'} h e = (b, refl, let f : a' ≡ a = ground arith in rw f h)
  loop-Agrees n a b (x ∷ events) {a'} h e =
      let (c, step, rest) =
        >>=-eq-ok (replay_step projection none a x) (λ q. replay_loop projection none q events) e in
      let (d, step', h') = step-Agrees n a b x h step in
      let (b', rest', h'') = loop-Agrees n c d events h' rest in (b', rw step' rest', h'')

  abbrev beginning : Progress S
  beginning = record {
    state = projection.initial_state;
    last_position = 0;
    last_sequence = none;
    processed = 0;
    previous_input_position = 0;
  }

  abbrev result : Host → Progress S → ReplayResult S
  result host p = record {
    state = p.state;
    state_hash = json_digest host (projection.dump_state p.state);
    processed_events = p.processed;
    last_global_position = p.last_position;
    last_stream_sequence = p.last_sequence;
  }

  whole_replay :
      (host : Host) (events : List EventEnvelope) {r : ReplayResult S}
      → replay projection host events none ≡ ok r
      → (p : Progress S) × (replay_loop projection none beginning events ≡ ok p)
        × (r ≡ result host p)
        × (ltb projection.version 1 ≡ false)
  unfolding replay replay_start
  whole_replay host events h = elim (Outcome-cases (replay_loop projection none beginning events)) [
    | inl (p, e) ↦ (p, e, ground arith, ground arith)
    | inr (x, e) ↦ ground arith
  ]

  -- the checkpoint of the whole ledger that a result makes
  abbrev drawn : Host → ReplayResult S → DateTime → ProjectionCheckpoint
  drawn host r now = record {
    projection_name = projection.name;
    projection_version = projection.version;
    stream_id = none;
    last_global_position = r.last_global_position;
    last_stream_sequence = none;
    state = projection.dump_state r.state;
    state_hash = json_digest host (projection.dump_state r.state);
    updated_at = now;
  }

  checkpoint_of-drawn :
      (host : Host) (r : ReplayResult S) (now : DateTime)
      → is_blank host projection.name ≡ false
      → ltb projection.version 1 ≡ false
      → now.is_aware ≡ true
      → checkpoint_of projection host r none now ≡ ok (drawn host r now)
  unfolding checkpoint_of new_checkpoint
  checkpoint_of-drawn host r now named valid aware =
      let same = eq_refl (json_digest host (projection.dump_state r.state)) in
      rw (named, valid, aware, same) refl

  -- What `replay` does from a checkpoint of its own making.
  resumed_replay :
      (host : Host) (events : List EventEnvelope) (r : ReplayResult S) (now : DateTime)
      {p : Progress S}
      → ltb projection.version 1 ≡ false
      → projection.load_state (projection.dump_state r.state) ≡ ok r.state
      → replay_loop projection none
          (record {
            state = r.state;
            last_position = r.last_global_position;
            last_sequence = none;
            processed = 0;
            previous_input_position = 0;
          })
          events
        ≡ ok p
      → replay projection host events (some (drawn host r now)) ≡ ok (result host p)
  unfolding replay replay_start validate_checkpoint
  resumed_replay host events r now v l h = ground (arith, eq_refl projection.name)

-- Replaying the rest of the ledger from the checkpoint of a prefix gives the state, its hash and the
-- position of replaying all of it, and the two replays count every event once. The projection has a
-- name and loads back the state that it dumps, and the clock's time has an offset: then the checkpoint is
-- made, and the replay from it returns.
pub replay_resume :
    {S : Type 0} (projection : Projection S) (host : Host) (before after : List EventEnvelope)
    (now : DateTime) {part whole : ReplayResult S}
    → replay projection host before none ≡ ok part
    → replay projection host (before ++ after) none ≡ ok whole
    → is_blank host projection.name ≡ false
    → now.is_aware ≡ true
    → projection.load_state (projection.dump_state part.state) ≡ ok part.state
    → (c : ProjectionCheckpoint) × (checkpoint_of projection host part none now ≡ ok c)
      × (rest : ReplayResult S) × (replay projection host after (some c) ≡ ok rest)
      × (rest.state ≡ whole.state)
      × (rest.state_hash ≡ whole.state_hash)
      × (rest.last_global_position ≡ whole.last_global_position)
      × (part.processed_events + rest.processed_events ≡ whole.processed_events)
replay_resume {S} projection host before after now {part} {whole} first all named aware loads =
    let (p, run, made, valid) = whole_replay projection host before first in
    let (q, run_all, made_all, _) = whole_replay projection host (before ++ after) all in
    let more : replay_loop projection none p after ≡ ok q =
      cc (run, run_all, replay_loop-append projection (beginning projection) before after) in
    let read = caught_up projection (beginning projection) before refl run in
    let start : Progress S = record {
      state = part.state;
      last_position = part.last_global_position;
      last_sequence = none;
      processed = 0;
      previous_input_position = 0;
    } in
    let agrees : Agrees projection p.processed p start = record {
      state = ground (arith, made);
      position = ground (arith, made);
      cursor = omega arith;
      read = read;
      counted = omega arith;
    } in
    let (t, run_rest, same) = loop-Agrees projection p.processed p start after agrees more in
    let done = resumed_replay projection host after part now valid loads run_rest in
    (
      drawn projection host part now,
      checkpoint_of-drawn projection host part now named valid aware,
      result projection host t,
      done,
      ground (arith, made_all),
      ground (arith, made_all),
      ground (arith, made_all),
      ground (arith, made_all, made),
    )
