-- ===== src/Messages/Handler/Steps.antt =====
-- What each kind of message does to a handler, and deliveries of several.
use dlcdevkit.Base.{
  ℕ, suc, ◌<◌, ◌≡◌, refl, ap, ◌∙◌, inl, inr, arith, true, false, List, [], ◌∷◌, ◌++◌, length,
  replicate, ◌==◌, ==_refl, Bool-cases,
}
use dlcdevkit.Base.Outcome.{Outcome, ok}
use dlcdevkit.Messages.Segments.{
  SegmentStart, SegmentChunk, SegmentReader, new_reader, max_chunk_size, expecting_chunk,
}
use dlcdevkit.Messages.Segments.Reading.{IsValid}
use dlcdevkit.Messages.Segments.RoundTrip.{full_chunk, last_chunk, start_taken}
use dlcdevkit.Messages.Handler.{
  WireMessage, segment_start, segment_chunk, LightningError, Codec, MessageHandler, push_received,
  set_reader, handle_whole, after_chunk, after_start, handle_chunk, handle_fresh, handle_expecting,
  handle_custom_message,
}

module _ {Message : Type 0} (codec : Codec Message) where
  -- Messages that come from one node, one after the other, and what each call returned.
  abbrev pub deliver :
      MessageHandler Message
      → ℕ
      → List (WireMessage Message)
      → MessageHandler Message × List (Outcome LightningError (Unit {0}))
  deliver h org [] = (h, [])
  deliver h org (w ∷ ws) =
      let step = handle_custom_message codec h w org in
      let rest = deliver step.0 org ws in (rest.0, step.1 ∷ rest.1)

  -- A delivery that receives one message: every call succeeds, and the node's reader is new again.
  pub record IsDelivered (h : MessageHandler Message) (org : ℕ) (ws : List (WireMessage Message))
      (m : Message) : Type 0 where
    pub received : (deliver h org ws).0.msg_received ≡ h.msg_received ++ ((org, m) ∷ [])
    pub results : (deliver h org ws).1 ≡ replicate (length ws) (ok tt)
    pub renewed : (deliver h org ws).0.segment_readers org ≡ new_reader

  pub set_reader-same :
      (h : MessageHandler Message) (org : ℕ) (r : SegmentReader)
      → (set_reader h org r).segment_readers org ≡ r
  unfolding set_reader
  set_reader-same h org r = rw (==_refl org) refl

  pub expected :
      (h : MessageHandler Message) (org : ℕ) (c : SegmentChunk)
      → expecting_chunk (h.segment_readers org) ≡ true
      → handle_custom_message codec h (segment_chunk c) org ≡ handle_chunk codec h c org
  unfolding handle_custom_message handle_expecting
  expected h org c e = rw e refl

  pub waiting :
      (r : SegmentReader) (bytes : List ℕ) (n : ℕ)
      → r ≡ record { cur_data = bytes; remaining_segments = suc n }
      → expecting_chunk r ≡ true
  unfolding expecting_chunk
  waiting r bytes n e =
      let some_left : (suc n == 0) ≡ false = ground arith in rw (e, some_left) refl

  pub step_more :
      (h : MessageHandler Message) (org n x : ℕ) (acc : List ℕ) (c : SegmentChunk)
      → h.segment_readers org ≡ record { cur_data = x ∷ acc; remaining_segments = suc (suc n) }
      → length c.bytes ≡ max_chunk_size
      → handle_custom_message codec h (segment_chunk c) org ≡ (
        set_reader h org (record { cur_data = (x ∷ acc) ++ c.bytes; remaining_segments = suc n }),
        ok tt,
      )
  step_more h org n x acc c e full =
      expected h org c (waiting (h.segment_readers org) (x ∷ acc) (suc n) e)
      ∙ (unfold handle_chunk after_chunk in rw (e, full_chunk n x acc c full) refl)

  pub step_last :
      (h : MessageHandler Message) (org x : ℕ) (acc : List ℕ) (c : SegmentChunk)
      → h.segment_readers org ≡ record { cur_data = x ∷ acc; remaining_segments = 1 }
      → handle_custom_message codec h (segment_chunk c) org
        ≡ handle_whole codec (set_reader h org new_reader) org ((x ∷ acc) ++ c.bytes)
  step_last h org x acc c e =
      expected h org c (waiting (h.segment_readers org) (x ∷ acc) 0 e)
      ∙ (unfold handle_chunk after_chunk in rw (e, last_chunk x acc c) refl)

  -- A step in front of a delivery.
  pub before :
      (h h' : MessageHandler Message) (org : ℕ) (w : WireMessage Message)
      (ws : List (WireMessage Message)) (m : Message)
      → handle_custom_message codec h w org ≡ (h', ok tt)
      → h'.msg_received ≡ h.msg_received
      → IsDelivered h' org ws m
      → IsDelivered h org (w ∷ ws) m
  before h h' org w ws m step same d = record {
    received = rw step (d.received ∙ ap (λ (l : List (ℕ × Message)). l ++ ((org, m) ∷ [])) same);
    results = rw step (ap (λ (l : List (Outcome LightningError (Unit {0}))). ok tt ∷ l) d.results);
    renewed = rw step d.renewed;
  }

  pub received_last :
      (h h' : MessageHandler Message) (org : ℕ) (w : WireMessage Message) (m : Message)
      → handle_custom_message codec h w org ≡ (push_received h' org m, ok tt)
      → h'.msg_received ≡ h.msg_received
      → h'.segment_readers org ≡ new_reader
      → IsDelivered h org (w ∷ []) m
  received_last h h' org w m step same fresh = record {
    received = rw step (ap (λ (l : List (ℕ × Message)). l ++ ((org, m) ∷ [])) same);
    results = rw step refl;
    renewed = rw step fresh;
  }

  pub received-set_reader :
      (h : MessageHandler Message) (org : ℕ) (r : SegmentReader)
      → (set_reader h org r).msg_received ≡ h.msg_received
  unfolding set_reader
  received-set_reader h org r = refl

  pub fresh_start :
      (h : MessageHandler Message) (org n : ℕ) (head : List ℕ)
      → h.segment_readers org ≡ new_reader
      → n < 999
      → length head ≡ 65526
      → handle_fresh h (segment_start (record { nb_segments = suc (suc n); bytes = head })) org
        ≡ (set_reader h org (record { cur_data = head; remaining_segments = suc n }), ok tt)
  fresh_start h org n head e small len =
      unfold handle_fresh after_start in rw (e, start_taken n head small len) refl

  pub reset_start :
      (h : MessageHandler Message) (org : ℕ) (s : SegmentStart)
      → expecting_chunk (h.segment_readers org) ≡ true
      → handle_custom_message codec h (segment_start s) org
        ≡ handle_fresh (set_reader h org new_reader) (segment_start s) org
  unfolding handle_custom_message handle_expecting
  reset_start h org s e = rw e refl

  pub plain_start :
      (h : MessageHandler Message) (org : ℕ) (s : SegmentStart)
      → expecting_chunk (h.segment_readers org) ≡ false
      → handle_custom_message codec h (segment_start s) org ≡ handle_fresh h (segment_start s) org
  unfolding handle_custom_message
  plain_start h org s e = rw e refl

  -- A valid reader that expects no chunk is as new.
  pub idle : (r : SegmentReader) → IsValid r → expecting_chunk r ≡ false → r ≡ new_reader
  unfolding expecting_chunk
  idle r (inl (fresh, none_left)) e = cc (fresh, none_left)
  idle r (inr (held, pos, small)) e = absurd (ground arith)

  -- Whatever a valid reader was waiting for, a start begins anew.
  pub step_start :
      (h : MessageHandler Message) (org n : ℕ) (head : List ℕ)
      → IsValid (h.segment_readers org)
      → n < 999
      → length head ≡ 65526
      → (h' : MessageHandler Message) × (handle_custom_message codec h
            (segment_start (record { nb_segments = suc (suc n); bytes = head }))
            org
          ≡ (h', ok tt))
        × (h'.msg_received ≡ h.msg_received)
        × (h'.segment_readers org ≡ record { cur_data = head; remaining_segments = suc n })
  step_start h org n head valid small len =
      let s : SegmentStart = record { nb_segments = suc (suc n); bytes = head } in
      let r : SegmentReader = record { cur_data = head; remaining_segments = suc n } in
      let reset = set_reader h org new_reader in
      elim (Bool-cases (expecting_chunk (h.segment_readers org))) [
        | inl busy ↦ (
          set_reader reset org r,
          reset_start h org s busy
              ∙ fresh_start reset org n head (set_reader-same h org new_reader) small len,
          received-set_reader reset org r ∙ received-set_reader h org new_reader,
          set_reader-same reset org r,
        )
        | inr quiet ↦ (
          set_reader h org r,
          plain_start h org s quiet
              ∙ fresh_start h org n head (idle (h.segment_readers org) valid quiet) small len,
          received-set_reader h org r,
          set_reader-same h org r,
        )
      ]
