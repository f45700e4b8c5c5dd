-- ===== src/Sources/Index.antt =====
-- schedule/scheduler.rs: the places at which `register_event_source` inserts.
use vsched.Base.{ℕ, ◌<◌, ◌≡◌, ◌≢◌, false, none, some, arith, length, done, panic}
use vsched.Config.{Config}
use vsched.Current.{scheduler_at}
use vsched.Os.{Os}
use vsched.Sources.{pos, negsuc, insert_index, insert_source, register_event_source}
use vsched.World.{World, Scheduler, EventSourceVtable}

insert_index-last : (len : ℕ) → insert_index (negsuc len) len ≡ some 18446744073709551615
unfolding insert_index
insert_index-last len = ground arith

insert_index_outside :
    (i len : ℕ) → len < i → (insert_index (pos i) len ≡ none) × (insert_index (negsuc i) len ≡ none)
unfolding insert_index
insert_index_outside i len h = (ground arith, ground arith)

module _ {S : Type 0} (c : Config) (os : Os S) where
  -- On a scheduler that is there, with pointers that are not null and fewer than 2 ^ 64 - 1
  -- sources, `register_event_source` panics for the index -len - 1, which its check lets pass.
  pub register_event_source_panics :
      (p kernel_data user_data cpu : ℕ) (v : EventSourceVtable) (x : Scheduler) (w : World S)
      → kernel_data ≢ 0
      → user_data ≢ 0
      → scheduler_at p w ≡ done (x, w)
      → length x.sources < 18446744073709551615
      → register_event_source c os p kernel_data user_data v (negsuc (length x.sources)) cpu w
        ≡ panic
  unfolding register_event_source insert_source
  register_event_source_panics p k u cpu v x w hk hu e small =
      ground (arith, e, insert_index-last (length x.sources))

  -- On a scheduler that is there, `register_event_source` gives false and changes nothing for an
  -- index above len or below -len - 1.
  pub register_event_source_refuses :
      (p kernel_data user_data cpu i : ℕ) (v : EventSourceVtable) (x : Scheduler) (w : World S)
      → scheduler_at p w ≡ done (x, w)
      → length x.sources < i
      → (register_event_source c os p kernel_data user_data v (pos i) cpu w ≡ done (false, w))
        × (register_event_source c os p kernel_data user_data v (negsuc i) cpu w ≡ done (false, w))
  unfolding register_event_source
  register_event_source_refuses p k u cpu i v x w e h =
      let (d, d') = insert_index_outside i (length x.sources) h in
      (ground (arith, e, d), ground (arith, e, d'))
