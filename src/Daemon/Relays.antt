-- ===== src/Daemon/Relays.antt =====
-- `update_relays` against a function of the data that it finds.
use pcon_tng.Prelude.{
  ℕ, zero, suc, ◌+◌, ◌≤◌, ◌<◌, ◌≡◌, ◌≢◌, refl, sym, ap, ◌∙◌, ◌⊎◌, ◌↔◌, inl, inr, ℤ, pos, arith, ltb,
  not, ◌&&◌, false, ◌==◌, subst, ltb→lt, if-true, if-false, Bool-cases, if◌then◌else◌,
}
use pcon_tng.Prelude.Search.{split}
use pcon_tng.Float.{CFloat}
use pcon_tng.Slab.{slabcon}
use pcon_tng.Slab.Laws.{slabcon_lem, Demands}
use pcon_tng.Sch.{max_schedule_recs, TmplDat, get_tar_temp, key_of}
use pcon_tng.Sch.Live.{IsValid}
use pcon_tng.Sch.Time.{in_force, test_sch_time-in_force}
use pcon_tng.Sch.Target.{test_sch_sensor-get_tar_temp, target_slot, get_tar_temp-slot}
use pcon_tng.TypeDefs.{ChnDat, IpcDat, Tm, number_of_channels, number_of_sensors}
use pcon_tng.Daemon.{channel_state, set_state, update_channels, update_relays}

module _ {F : Type 0} where
  abbrev pub chn : IpcDat F → ℕ → ChnDat
  chn ipc k = ipc.sys_data.c_data (pos k)

  abbrev pub schedule : IpcDat F → Tm → ℕ → TmplDat F
  schedule ipc tm k = ipc.sys_data.sys_sch (pos tm.tm_wday) (pos k)

  -- Each channel's sensor is one of the array of sensors.
  abbrev pub SensorsInRange : IpcDat F → Type 0
  SensorsInRange ipc =
      (k : ℕ)
      → k < number_of_channels
      → (m : ℕ) × (m < number_of_sensors) × ((chn ipc k).sensor_id ≡ pos m)

module _ {F : Type 0} ⦃fl : CFloat F⦄ where
  -- The local `state` and the controller's `hold` after the first `k` channels, all read from the
  -- data as it was on entry.
  unfoldable pub decided : IpcDat F → Tm → ℕ → ℤ → ℕ → ℕ × ℤ
  decided ipc tm stray hold zero = (stray, hold)
  decided ipc tm stray hold (suc k) =
      let r = decided ipc tm stray hold k in channel_state ipc tm k r.0 r.1

  -- The data of `ipc'` from channel `i` on is that of `ipc`.
  record Agrees (ipc ipc' : IpcDat F) (i : ℕ) : Type 0 where
    sch : ipc'.sys_data.sys_sch ≡ ipc.sys_data.sys_sch
    sen : ipc'.s_dat ≡ ipc.s_dat
    chans : (k : ℕ) → i ≤ k → chn ipc' k ≡ chn ipc k

  channel_state-Agrees :
      {ipc ipc' : IpcDat F} (tm : Tm) (i st : ℕ) (hold : ℤ)
      → Agrees ipc ipc' i
      → channel_state ipc' tm i st hold ≡ channel_state ipc tm i st hold
  unfolding channel_state
  channel_state-Agrees tm i st hold a = rw (a.sch, a.sen, a.chans i (omega arith))

  Agrees-set_state :
      {ipc ipc' : IpcDat F} (i st : ℕ)
      → Agrees ipc ipc' i
      → Agrees ipc (set_state ipc' i st) (suc i)
  Agrees-set_state i st a = record {
    sch = a.sch;
    sen = a.sen;
    chans = λ k h. ground (arith, a.chans k (omega arith));
  }

  -- Channels outside the loop's range keep their data.
  update_channels-frame :
      (tm : Tm) (i n st : ℕ) (hold : ℤ) (ipc : IpcDat F) (j : ℕ)
      → (j < i) ⊎ (i + n ≤ j)
      → chn (update_channels tm i n st hold ipc).0 j ≡ chn ipc j
  unfolding update_channels
  update_channels-frame tm i zero st hold ipc j h = refl
  update_channels-frame tm i (suc n) st hold ipc j h =
      let r = channel_state ipc tm i st hold in
      update_channels-frame tm (suc i) n r.0 r.1 (set_state ipc i r.0) j (ground arith)
      ∙ ground arith

  module _ (ipc : IpcDat F) (tm : Tm) (stray : ℕ) (hold : ℤ) where
    abbrev pub round : ℕ → ℕ × ℤ
    round = decided ipc tm stray hold

    update_channels-step :
        (i n : ℕ) (ipc' : IpcDat F)
        → Agrees ipc ipc' i
        → update_channels tm i (suc n) (round i).0 (round i).1 ipc'
          ≡ update_channels tm
              (suc i)
              n
              (round (suc i)).0
              (round (suc i)).1
              (set_state ipc' i (round (suc i)).0)
    unfolding update_channels decided
    update_channels-step i n ipc' a =
        ap (λ r. update_channels tm (suc i) n r.0 r.1 (set_state ipc' i r.0))
          (channel_state-Agrees tm i (round i).0 (round i).1 a)

    update_channels-hold :
        (i n : ℕ) (ipc' : IpcDat F)
        → Agrees ipc ipc' i
        → (update_channels tm i n (round i).0 (round i).1 ipc').1 ≡ (round (i + n)).1
    unfolding update_channels
    update_channels-hold i zero ipc' a = let e : i + 0 ≡ i = omega arith in rw e
    update_channels-hold i (suc n) ipc' a =
        let e : suc i + n ≡ i + suc n = omega arith in
        ap (λ r. r.1) (update_channels-step i n ipc' a)
        ∙ update_channels-hold (suc i) n (set_state ipc' i (round (suc i)).0)
            (Agrees-set_state i (round (suc i)).0 a)
        ∙ ap (λ k. (round k).1) e

    update_channels-state :
        (i n j : ℕ) (ipc' : IpcDat F)
        → Agrees ipc ipc' i
        → i ≤ j
        → j < i + n
        → chn (update_channels tm i n (round i).0 (round i).1 ipc').0 j
          ≡ record (chn ipc j) { state = (round (suc j)).0 }
    update_channels-state i zero j ipc' a h l = absurd (omega arith)
    update_channels-state i (suc n) j ipc' a h l =
        let st = (round (suc i)).0 in
        ap (λ r. chn r.0 j) (update_channels-step i n ipc' a) ∙ elim (split j i h) [
          | inl e ↦
              update_channels-frame tm (suc i) n st (round (suc i)).1 (set_state ipc' i st) j
                (inl (omega arith))
              ∙ rw (← e) (ground (arith, a.chans i (omega arith)))
          | inr g ↦
              update_channels-state (suc i) n j (set_state ipc' i st) (Agrees-set_state i st a) g
                (omega arith)
        ]

    Agrees-self : Agrees ipc ipc 0
    Agrees-self = record { sch = refl; sen = refl; chans = λ k h. refl }

    update_relays-driven :
        (j : ℕ)
        → j < number_of_channels
        → chn (update_relays stray tm hold ipc).0 j
          ≡ record (chn ipc j) { state = (round (suc j)).0 }
    unfolding update_relays decided
    update_relays-driven j h =
        update_channels-state 0 16 j ipc Agrees-self (omega arith) (omega arith)

    update_relays-frame :
        (j : ℕ) → number_of_channels ≤ j → chn (update_relays stray tm hold ipc).0 j ≡ chn ipc j
    unfolding update_relays decided
    update_relays-frame j h = update_channels-frame tm 0 16 stray hold ipc j (inr (omega arith))

    -- The update, made in place channel by channel, gives each of the sixteen channels the state
    -- decided from the data as it was on entry and changes nothing else of it, leaves all other
    -- cells of the channel array alone, and leaves the controller with the last reading decided.
    pub update_relays-decided :
        (j : ℕ)
        → (chn (update_relays stray tm hold ipc).0 j ≡ (
            if ltb j number_of_channels
            then record (chn ipc j) { state = (round (suc j)).0 }
            else chn ipc j))
          × ((update_relays stray tm hold ipc).1 ≡ (round number_of_channels).1)
    unfolding update_relays decided
    update_relays-decided j = (
      elim (Bool-cases (ltb j number_of_channels)) [
        | inl e ↦ update_relays-driven j (ltb→lt j 16 e) ∙ sym (if-true (ltb j 16) _ _ e)
        | inr e ↦ update_relays-frame j (ground arith) ∙ sym (if-false (ltb j 16) _ _ e)
      ],
      update_channels-hold 0 16 ipc Agrees-self,
    )

    -- After the update a channel under manual control is exactly as it was.
    pub manual_channel :
        (j : ℕ)
        → j < number_of_channels
        → (chn ipc j).mode ≡ 0
        → chn (update_relays stray tm hold ipc).0 j ≡ chn ipc j
    unfolding decided channel_state
    manual_channel j h m = update_relays-driven j h ∙ ground arith

    -- A channel under time control whose schedule for the day is in order and not empty gets the
    -- state of the record in force at the time of day.
    pub time_channel-in_force :
        (j : ℕ)
        → j < number_of_channels
        → (chn ipc j).mode ≡ 1
        → IsValid (schedule ipc tm j)
        → (schedule ipc tm j).rcnt ≢ 0
        → (chn (update_relays stray tm hold ipc).0 j).state
          ≡ ((schedule ipc tm j).rec
              (in_force (schedule ipc tm j) (key_of tm.tm_hour tm.tm_min))).state
    unfolding decided channel_state
    time_channel-in_force j h m v some_records =
        ap (λ c. c.state) (update_relays-driven j h)
        ∙ ground (arith, test_sch_time-in_force (schedule ipc tm j) v (key_of tm.tm_hour tm.tm_min))

    abbrev pub reading : ℕ → ℤ
    reading j = fl.to_int (ipc.s_dat (chn ipc j).sensor_id).temp

    sensor_round :
        (j : ℕ)
        → (chn ipc j).mode ≡ 2
        → (schedule ipc tm j).rcnt ≢ 0
        → round (suc j)
          ≡ slabcon
              (round j).1
              (get_tar_temp (key_of tm.tm_hour tm.tm_min) (schedule ipc tm j))
              (reading j)
    unfolding decided channel_state
    sensor_round j m some_records = ground (
      arith,
      test_sch_sensor-get_tar_temp (schedule ipc tm j) (round j).1 (key_of tm.tm_hour tm.tm_min)
          (reading j),
    )

    -- The reading that the controller's static variable holds when channel k is reached: that of
    -- the last channel before it that is under sensor control with a schedule for the day that is
    -- not empty, or, before any, what it held at first.
    unfoldable pub last_reading : ℕ → ℤ
    last_reading zero = hold
    last_reading (suc k) =
        let before = last_reading k in
        if (chn ipc k).mode == 2 && not ((schedule ipc tm k).rcnt == 0) then reading k else before

    passed_by :
        (k : ℕ)
        → ((chn ipc k).mode == 2 && not ((schedule ipc tm k).rcnt == 0)) ≡ false
        → (round (suc k)).1 ≡ (round k).1
    unfolding decided channel_state
    passed_by k passes = ground (
      arith,
      test_sch_sensor-get_tar_temp (schedule ipc tm k) (round k).1 (key_of tm.tm_hour tm.tm_min)
          (reading k),
    )

    pub round-last_reading : (k : ℕ) → (round k).1 ≡ last_reading k
    unfolding decided last_reading
    round-last_reading zero = refl
    round-last_reading (suc k) =
        elim (Bool-cases ((chn ipc k).mode == 2 && not ((schedule ipc tm k).rcnt == 0))) [
          | inl senses ↦
              let m : (chn ipc k).mode ≡ 2 = ground arith in
              let some_records : (schedule ipc tm k).rcnt ≢ 0 = ground arith in
              let law =
                slabcon_lem (round k).1
                  (get_tar_temp (key_of tm.tm_hour tm.tm_min) (schedule ipc tm k)) (reading k) in
              ap (λ (r : ℕ × ℤ). r.1) (sensor_round k m some_records)
              ∙ law.2
              ∙ sym (if-true _ _ _ senses)
          | inr passes ↦ passed_by k passes ∙ round-last_reading k ∙ sym (if-false _ _ _ passes)
        ]

    pub sensor_channel-Demands :
        (j : ℕ)
        → j < number_of_channels
        → (chn ipc j).mode ≡ 2
        → (schedule ipc tm j).rcnt ≢ 0
        → target_slot (key_of tm.tm_hour tm.tm_min) (schedule ipc tm j) < max_schedule_recs
        → SensorsInRange ipc
        → (((chn (update_relays stray tm hold ipc).0 j).state ≡ 1)
            ↔ Demands
                (last_reading j)
                (fl.to_int
                  ((schedule ipc tm j).rec
                    (target_slot (key_of tm.tm_hour tm.tm_min) (schedule ipc tm j))).temp)
                (reading j))
          × ((update_relays stray tm hold ipc).1 ≡ last_reading number_of_channels)
    sensor_channel-Demands j h m some_records in_array in_range =
        let key = key_of tm.tm_hour tm.tm_min in
        let sch = schedule ipc tm j in
        let law = slabcon_lem (round j).1 (get_tar_temp key sch) (reading j) in
        let decision : ((chn (update_relays stray tm hold ipc).0 j).state ≡ 1)
            ↔ Demands (round j).1 (get_tar_temp key sch) (reading j) =
          rw (update_relays-driven j h, sensor_round j m some_records) law.1 in
        let Decides : ℤ → ℤ → Type 0 = λ earlier target.
          ((chn (update_relays stray tm hold ipc).0 j).state ≡ 1)
          ↔ Demands earlier target (reading j) in
        (
          subst (λ earlier. Decides earlier (fl.to_int (sch.rec (target_slot key sch)).temp))
              (round-last_reading j)
              (subst (λ target. Decides (round j).1 target) (get_tar_temp-slot key sch some_records)
                decision),
          (update_relays-decided 0).1 ∙ round-last_reading number_of_channels,
        )

    -- A channel behind the first whose mode is none of the three that are supported takes the
    -- state of the channel before it.
    pub bad_mode_copies :
        (j : ℕ)
        → suc j < number_of_channels
        → 2 < (chn ipc (suc j)).mode
        → (chn (update_relays stray tm hold ipc).0 (suc j)).state
          ≡ (chn (update_relays stray tm hold ipc).0 j).state
    unfolding decided channel_state
    bad_mode_copies j h m =
        ap (λ c. c.state) (update_relays-driven (suc j) h)
        ∙ ground arith
        ∙ sym (ap (λ c. c.state) (update_relays-driven j (omega arith)))
