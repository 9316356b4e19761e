-- ===== src/Channel/Fifo.antt =====
-- Any sequence of sends and receives behaves as on a bounded first-in first-out queue.
use ferret_os.Common.{
  ℕ, ◌^◌, ◌<◌, ◌≤◌, ◌≡◌, refl, Option, none, some, List, [], ◌∷◌, ◌++◌, length, ◌==◌, if◌then◌else◌,
  Run, ok, ◌>>=◌, arith, Bool-cases, inl, inr,
}
use ferret_os.Channel.{Channel, Sent, accepted, rejected, new, try_send, try_receive}
use ferret_os.Channel.Contents.{
  Holds, new-Holds, try_send-full, try_send-room, try_receive-empty, try_receive-first,
}

pub data Call {ℓ} (A : Type ℓ) : Type ℓ where
  send : A → Call A
  receive : Call A

pub data Reply {ℓ} (A : Type ℓ) : Type ℓ where
  sent : Sent A → Reply A
  received : Option A → Reply A

module _ {ℓ} {A : Type ℓ} where
  -- The specification: a queue of at most `cap` values.
  unfoldable pub serve : ℕ → List A → Call A → Reply A × List A
  serve cap q (send v) =
      if length q == cap then (sent (rejected v), q) else (sent accepted, q ++ v ∷ [])
  serve cap [] receive = (received none, [])
  serve cap (a ∷ q) receive = (received (some a), q)

  unfoldable pub serve_all : ℕ → List A → List (Call A) → List (Reply A) × List A
  serve_all cap q [] = ([], q)
  serve_all cap q (call ∷ calls) =
      let (reply, q') = serve cap q call in
      let (replies, last) = serve_all cap q' calls in (reply ∷ replies, last)

  unfoldable pub perform : Channel A → Call A → Run (Reply A × Channel A)
  perform c (send v) = let (r, c') = try_send c v in ok (sent r, c')
  perform c receive = do (r, c') ← try_receive c; ok (received r, c')

  unfoldable pub perform_all : Channel A → List (Call A) → Run (List (Reply A) × Channel A)
  perform_all c [] = ok ([], c)
  perform_all c (call ∷ calls) = do
    (reply, c') ← perform c call
    (replies, last) ← perform_all c' calls
    ok (reply ∷ replies, last)

  perform_refines :
      (cap : ℕ) (c : Channel A) (q : List A) (call : Call A)
      → Holds cap c q
      → (c' : Channel A) × (perform c call ≡ ok ((serve cap q call).0, c'))
        × Holds cap c' (serve cap q call).1
  unfolding perform serve
  perform_refines cap c q (send v) h = elim (Bool-cases (length q == cap)) [
    | inl full ↦ rw (full, try_send-full cap c q v h (ground arith)) (c, refl, h)
    | inr room ↦
        let fits = h.fits in
        let (c', runs, h') = try_send-room cap c q v h (ground arith) in
        rw (room, runs) (c', refl, h')
  ]
  perform_refines cap c [] receive h = rw (try_receive-empty cap c h) (c, refl, h)
  perform_refines cap c (a ∷ q) receive h =
      let (c', runs, h') = try_receive-first cap c a q h in rw runs (c', refl, h')

  -- The channel never panics and replies to every sequence of calls as the queue does.
  perform_all_refines :
      (cap : ℕ) (c : Channel A) (q : List A) (calls : List (Call A))
      → Holds cap c q
      → (c' : Channel A) × (perform_all c calls ≡ ok ((serve_all cap q calls).0, c'))
        × Holds cap c' (serve_all cap q calls).1
  unfolding perform_all serve_all
  perform_all_refines cap c q [] h = (c, refl, h)
  perform_all_refines cap c q (call ∷ calls) h =
      let (c₁, runs₁, h₁) = perform_refines cap c q call h in
      let (c₂, runs₂, h₂) = perform_all_refines cap c₁ (serve cap q call).1 calls h₁ in
      (c₂, rw (runs₁, runs₂) refl, h₂)

  pub channel_refines_fifo :
      (cap : ℕ) (calls : List (Call A))
      → 0 < cap
      → cap ≤ 2 ^ 31
      → (c' : Channel A) × (perform_all (new cap) calls ≡ ok ((serve_all cap [] calls).0, c'))
        × Holds cap c' (serve_all cap [] calls).1
  channel_refines_fifo cap calls pos small =
      perform_all_refines cap (new cap) [] calls (new-Holds cap pos small)
