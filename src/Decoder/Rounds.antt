-- ===== src/Decoder/Rounds.antt =====
-- scripts/decoders/i2s_skew/pd.py: what every round of `decode` keeps, from the start on.
use esphome_snapcast.Base.{
  ℕ, zero, suc, ◌+◌, ◌-◌, ◌≤◌, ◌<◌, ◌≡◌, refl, ◌∙◌, ap, ◌⊎◌, inl, inr, true, false, some, List,
  arith, length, length-drop, Bool-cases,
}
use esphome_snapcast.Base.Int.{pos}
use esphome_snapcast.Decoder.Bus.{Bus, Options, flush_bus}
use esphome_snapcast.Decoder.Slots.{IsValid, new_bus-IsValid, flush_bus-IsValid}
use esphome_snapcast.Base.Float.{Float}
use esphome_snapcast.Decoder.Window.{Settings, Decoder}
use esphome_snapcast.Decoder.Verdicts.{Outcome}
use esphome_snapcast.Decoder.Outcomes.{report_window-Outcome}
use esphome_snapcast.Decoder.Loop.{
  Tag, Wait, matched_flags, tags, window_ready, report_if_ready, decode_round, decode_rounds,
  started, decode,
}
use esphome_snapcast.Decoder.Dispatch.{dispatch-Dispatched, ws_count-tags}
use esphome_snapcast.Decoder.CsvStream.{
  csv_kinds, IsStream, csv_kinds-silent, csv_kinds-unmatched, csv_kinds-skew_info, csv_kinds-row,
  IsStream-row,
}

module _ (fl : Float) (o : Options) where
  open fl use {F, eq, of_int}

  -- Both buses are valid, one of them at least is short of a window, and the CSV is a stream.
  pub record IsReady (d : Decoder F) : Type 0 where
    pub valid_a : IsValid o d.state_a
    pub valid_b : IsValid o d.state_b
    pub room : (length d.state_a.pcm < o.win_frames) ⊎ (length d.state_b.pcm < o.win_frames)
    pub stream : IsStream d.wrote_header (csv_kinds d.out)

  Outcome-IsStream :
      (s : Settings F) (d d' : Decoder F)
      → Outcome fl o s d d'
      → IsStream d.wrote_header (csv_kinds d.out)
      → IsStream d'.wrote_header (csv_kinds d'.out)
  Outcome-IsStream s d d' (inl was) h = rw (was.out_eq, was.wrote_header_eq, csv_kinds-silent) h
  Outcome-IsStream s d d' (inr (inl was)) h =
      rw (was.out_eq, was.wrote_header_eq, csv_kinds-unmatched) h
  Outcome-IsStream s d d' (inr (inr was)) h =
      rw (was.out_eq, was.wrote_header_eq, csv_kinds-row, csv_kinds-skew_info)
        (IsStream-row d.wrote_header (csv_kinds d.out) h)

  window_ready-full :
      (d : Decoder F)
      → window_ready fl o d ≡ true
      → (o.win_frames ≤ length d.state_a.pcm) × (o.win_frames ≤ length d.state_b.pcm)
  unfolding window_ready
  window_ready-full d h = ground arith

  window_ready-short :
      (d : Decoder F)
      → window_ready fl o d ≡ false
      → (length d.state_a.pcm < o.win_frames) ⊎ (length d.state_b.pcm < o.win_frames)
  unfolding window_ready
  window_ready-short d h = ground arith

  length-flush_bus : (n : ℕ) (bus : Bus) → length (flush_bus n bus).pcm ≡ length bus.pcm - n
  unfolding flush_bus
  length-flush_bus n bus = length-drop n bus.pcm

  flushed_room :
      (d d' : Decoder F)
      → (length d.state_a.pcm ≤ o.win_frames) ⊎ (length d.state_b.pcm ≤ o.win_frames)
      → length d'.state_a.pcm ≡ length d.state_a.pcm - o.win_frames
      → length d'.state_b.pcm ≡ length d.state_b.pcm - o.win_frames
      → 0 < o.win_frames
      → (length d'.state_a.pcm < o.win_frames) ⊎ (length d'.state_b.pcm < o.win_frames)
  flushed_room d d' (inl few) ea eb w = inl (omega arith)
  flushed_room d d' (inr few) ea eb w = inr (omega arith)

  report_if_ready-IsReady :
      (s : Settings F) (d : Decoder F)
      → eq s.samplerate (of_int (pos 0)) ≡ false
      → 0 < o.win_frames
      → IsValid o d.state_a
      → IsValid o d.state_b
      → (length d.state_a.pcm ≤ o.win_frames) ⊎ (length d.state_b.pcm ≤ o.win_frames)
      → IsStream d.wrote_header (csv_kinds d.out)
      → (d' : Decoder F) × (report_if_ready fl o s d ≡ some d') × IsReady d'
  unfolding report_if_ready
  report_if_ready-IsReady s d rate w va vb room h = elim (Bool-cases (window_ready fl o d)) [
    | inl full ↦
        let (fa, fb) = window_ready-full d full in
        let (d', run, outcome, flushed) = report_window-Outcome fl o s d rate w va vb fa fb in
        (
          d',
          rw full run,
          record {
            valid_a = rw flushed.side_a_eq (flush_bus-IsValid o d.state_a o.win_frames va);
            valid_b = rw flushed.side_b_eq (flush_bus-IsValid o d.state_b o.win_frames vb);
            room =
                flushed_room d d' room
                  (ap (λ (b : Bus). length b.pcm) flushed.side_a_eq ∙ length-flush_bus _ d.state_a)
                  (ap (λ (b : Bus). length b.pcm) flushed.side_b_eq ∙ length-flush_bus _ d.state_b)
                  w;
            stream = Outcome-IsStream s d d' outcome h;
          },
        )
    | inr short ↦ (
      d,
      rw short,
      record { valid_a = va; valid_b = vb; room = window_ready-short d short; stream = h },
    )
  ]

  room_after :
      (d e : Decoder F)
      → (length d.state_a.pcm < o.win_frames) ⊎ (length d.state_b.pcm < o.win_frames)
      → length e.state_a.pcm ≤ length d.state_a.pcm + 1
      → length e.state_b.pcm ≤ length d.state_b.pcm + 1
      → (length e.state_a.pcm ≤ o.win_frames) ⊎ (length e.state_b.pcm ≤ o.win_frames)
  room_after d e (inl few) ga gb = inl (omega arith)
  room_after d e (inr few) ga gb = inr (omega arith)

  -- One round, with a flag reported for each condition, never fails and keeps `IsReady`.
  decode_round-IsReady :
      (s : Settings F) (w : Wait) (d : Decoder F)
      → eq s.samplerate (of_int (pos 0)) ≡ false
      → 0 < o.win_frames
      → length (matched_flags w.matched (length (tags d))) ≡ length (tags d)
      → IsReady d
      → (d' : Decoder F) × (decode_round fl o s w d ≡ some d') × IsReady d'
  unfolding decode_round
  decode_round-IsReady s w d rate pos_win flagged ready =
      let (e, run, p) =
        dispatch-Dispatched o w (tags d) (matched_flags w.matched (length (tags d))) d flagged
          ready.valid_a ready.valid_b in
      let (one_a, one_b) = ws_count-tags d in
      let (d', run', ready') =
        report_if_ready-IsReady s e rate pos_win p.valid_a p.valid_b
          (room_after d e ready.room (omega (arith, p.gain_a, one_a))
            (omega (arith, p.gain_b, one_b)))
          (rw (p.same_header, p.same_out) ready.stream) in
      (d', rw (run, decode_round) run', ready')

  -- The promise of libsigrokdecode: one flag for each condition that was waited for.
  abbrev pub Flagged : (ℕ → List Tag → Wait) → Type 0
  Flagged wait =
      (k : ℕ) (ts : List Tag) → length (matched_flags (wait k ts).matched (length ts)) ≡ length ts

  decode_rounds-IsReady :
      (s : Settings F) (wait : ℕ → List Tag → Wait) (n k : ℕ) (d : Decoder F)
      → eq s.samplerate (of_int (pos 0)) ≡ false
      → 0 < o.win_frames
      → Flagged wait
      → IsReady d
      → (d' : Decoder F) × (decode_rounds fl o s wait n k d ≡ some d') × IsReady d'
  unfolding decode_rounds
  decode_rounds-IsReady s wait zero k d rate w flagged ready = (d, refl, ready)
  decode_rounds-IsReady s wait (suc n) k d rate w flagged ready =
      let (e, run, ready') =
        decode_round-IsReady s (wait k (tags d)) d rate w (flagged k (tags d)) ready in
      let (d', run', ready'') = decode_rounds-IsReady s wait n (suc k) e rate w flagged ready' in
      (d', rw (run, decode_rounds) run', ready'')

  started-IsReady : 0 < o.win_frames → IsReady (started fl o)
  unfolding started csv_kinds
  started-IsReady w = record {
    valid_a = new_bus-IsValid o;
    valid_b = new_bus-IsValid o;
    room = inl w;
    stream = refl;
  }

  -- `decode` with a sample rate other than 0 runs on for any number of rounds, whatever edges come in which
  -- order, if libsigrokdecode reports a flag for each condition: no round raises. After each the
  -- words and the times of a bus are equally many, one bus at least is short of a full window, and
  -- the CSV written so far is empty or one header with rows behind it.
  pub decode-IsReady :
      (min_peak min_margin rate : F) (wait : ℕ → List Tag → Wait) (n : ℕ)
      → eq rate (of_int (pos 0)) ≡ false
      → 0 < o.win_frames
      → Flagged wait
      → (d : Decoder F) × (decode fl o min_peak min_margin (some rate) wait n ≡ some d) × IsReady d
  unfolding decode
  decode-IsReady min_peak min_margin rate wait n nonzero w flagged =
      decode_rounds-IsReady _ wait n 0 _ nonzero w flagged (started-IsReady w)
