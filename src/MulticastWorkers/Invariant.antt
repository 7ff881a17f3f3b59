-- ===== src/MulticastWorkers/Invariant.antt =====
-- What the loop over the messages of a multicast job keeps: each buffer is the open array of the
-- messages for its feed, and the counters count them.
use services_backend.Common.{
  ℕ, ◌+◌, ◌%◌, ◌^◌, ◌≡◌, refl, Option, some, List, [], ◌∷◌, ◌++◌, append_assoc, append-nil, Bytes,
  if◌then◌else◌, All, All-append, ok, arith, inl, inr, Bool-cases, length, length-append,
}
use services_backend.Zstd.{Zstd}
use services_backend.QueryBatch.{append_message}
use services_backend.QueryBatch.Buffers.{
  NonEmpty, intercalate, open_array, append_message-open_array,
}
use services_backend.Jobs.{Feed, logs, monitors, MulticastJobStruct}
use services_backend.MulticastWorkers.{
  MulticastState, MulticastLoop, feed_eq, count_in, read_message, route, add_message, add_text,
  multicast_message, multicast_loop, start,
}
use services_backend.MulticastWorkers.Fate.{
  Fate, ignored, sent, Sorted, undecoded, foreign, unknown, known, Fates, nil, cons, message_for,
  messages, size_of, total_size, read_message-payload, route-letter, route-unknown, route-foreign,
}

-- The loop's variables after a message with a fate; `b` is the decompression buffer that it leaves.
abbrev after : Fate → MulticastLoop → MulticastLoop
after ignored s = s
after (sent f text) s = add_message text (some f) s

add_text-after :
    (o : Option Bytes) (f : Fate) (s : MulticastLoop) → Sorted o f → add_text o s ≡ ok (after f s)
unfolding add_text
add_text-after o f s (undecoded e) = rw (e, add_text) refl
add_text-after o f s (foreign text e h) = rw (e, add_text) (rw (route-foreign text h) refl)
add_text-after o f s (unknown d c rest e h) = rw (e, add_text) (rw (route-unknown d c rest h) refl)
add_text-after o f s (known d rest text g e h) =
    let r : route text ≡ ok (some g) = rw h (route-letter d rest g) in rw (e, add_text) (rw r refl)

feed_eq_symm : (f g : Feed) → feed_eq f g ≡ feed_eq g f
feed_eq_symm logs g = ground arith
feed_eq_symm f g = ground arith

Sorted-NonEmpty :
    (o : Option Bytes) (f : Feed) (text : Bytes) → Sorted o (sent f text) → NonEmpty text
Sorted-NonEmpty o f text (known d rest text' f' e h) = rw h (omega arith)

-- The loop's variables when the messages `held` have been added, `bytes` bytes in all.
pub record Inv (held : Feed → List Bytes) (bytes : ℕ) (s : MulticastLoop) : Type 0 where
  pub arrays : (g : Feed) → (s.buffer g ≡ open_array (held g)) × All NonEmpty (held g)
  pub n_logs : s.n_log_msgs ≡ length (held logs)
  pub n_mons : s.n_mon_msgs ≡ length (held monitors)
  pub size : s.bytes_processed % 2 ^ 32 ≡ bytes % 2 ^ 32

module _ (held : Feed → List Bytes) (bytes : ℕ) (s : MulticastLoop) (v : Inv held bytes s) where
  add-arrays :
      (f g : Feed) (text : Bytes)
      → NonEmpty text
      → ((if feed_eq f g then append_message (s.buffer g) text else s.buffer g)
          ≡ open_array (held g ++ message_for g (sent f text)))
        × All NonEmpty (held g ++ message_for g (sent f text))
  add-arrays f g text k = elim (Bool-cases (feed_eq f g)) [
    | inl same ↦ rw same (
      rw (v.arrays g).0 (append_message-open_array (held g) text (v.arrays g).1),
      All-append NonEmpty (held g) (text ∷ []) (v.arrays g).1 (k, tt),
    )
    | inr other ↦ rw other (simp append-nil (v.arrays g))
  ]

  count-message :
      (f g : Feed) (text : Bytes) (n : ℕ)
      → n ≡ length (held g)
      → count_in g f n ≡ length (held g ++ message_for g (sent f text))
  count-message f g text n e = rw (feed_eq_symm g f) (elim (Bool-cases (feed_eq f g)) [
    | inl same ↦ rw same (omega (arith, e, length-append (held g) (text ∷ [])))
    | inr other ↦ rw other (simp append-nil e)
  ])

  after-Inv :
      (o : Option Bytes) (f : Fate)
      → Sorted o f
      → Inv (λ g. held g ++ message_for g f) (bytes + size_of f) (after f s)
  after-Inv o ignored h = record {
    arrays = λ g. simp append-nil (v.arrays g);
    n_logs = simp append-nil v.n_logs;
    n_mons = simp append-nil v.n_mons;
    size = omega (arith, v.size);
  }
  after-Inv o (sent f text) h =
      unfold add_message in
      record {
        arrays = λ g. add-arrays f g text (Sorted-NonEmpty o f text h);
        n_logs = count-message f logs text s.n_log_msgs v.n_logs;
        n_mons = count-message f monitors text s.n_mon_msgs v.n_mons;
        size = omega (arith, v.size);
      }

abbrev with_buffer : Bytes → MulticastLoop → MulticastLoop
with_buffer b s = record s { decompress_buffer = b }

pub multicast_loop-Inv :
    (z : Zstd) (raws : List Bytes) (fs : List Fate) (held : Feed → List Bytes) (bytes : ℕ)
    (s : MulticastLoop)
    → Fates z raws fs
    → Inv held bytes s
    → (s' : MulticastLoop) × (multicast_loop z raws s ≡ ok s')
      × Inv (λ g. held g ++ messages g fs) (bytes + total_size fs) s'
unfolding multicast_loop messages total_size
multicast_loop-Inv z raws fs held bytes s nil v = (
  s,
  refl,
  record {
    arrays = λ g. simp append-nil (v.arrays g);
    n_logs = simp append-nil v.n_logs;
    n_mons = simp append-nil v.n_mons;
    size = omega (arith, v.size);
  },
)
multicast_loop-Inv z (raw ∷ raws) (f ∷ fs) held bytes s (cons h hs) v =
    let b = (read_message z raw s.decompress_buffer).1 in
    let o = (read_message z raw s.decompress_buffer).0 in
    let sorted : Sorted o f = rw (read_message-payload z raw s.decompress_buffer) h in
    let step : multicast_message z raw s ≡ ok (after f (with_buffer b s)) =
      unfold multicast_message in add_text-after o f (with_buffer b s) sorted in
    let v' : Inv held bytes (with_buffer b s) = record {
      arrays = v.arrays;
      n_logs = v.n_logs;
      n_mons = v.n_mons;
      size = v.size;
    } in
    let (s', run, inv) =
      multicast_loop-Inv z raws fs _ _ (after f (with_buffer b s)) hs
        (after-Inv held bytes (with_buffer b s) v' o f sorted) in
    (s', rw step run, regroup s' inv)
  where
    regroup :
        (s' : MulticastLoop)
        → Inv
            (λ g. (held g ++ message_for g f) ++ messages g fs)
            (bytes + size_of f + total_size fs)
            s'
        → Inv
            (λ g. held g ++ (message_for g f ++ messages g fs))
            (bytes + (size_of f + total_size fs))
            s'
    regroup s' inv = record {
      arrays = λ g. rw (← append_assoc) (inv.arrays g);
      n_logs = rw (← append_assoc) inv.n_logs;
      n_mons = rw (← append_assoc) inv.n_mons;
      size = omega (arith, inv.size);
    }

pub start-Inv :
    (st : MulticastState) (args : MulticastJobStruct)
    → Inv (λ g. []) st.monitoring_vars.bytes_processed (start st args)
unfolding start open_array intercalate
start-Inv st args = record { arrays = λ g. (refl, tt); n_logs = refl; n_mons = refl; size = refl }
