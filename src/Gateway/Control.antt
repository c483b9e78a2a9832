-- ===== src/Gateway/Control.antt =====
-- From a sensor's report to a relay: BBB/CGI/Scon.c and the update of BBB/daemon/Dcon.c behind it.
use pcon_tng.Prelude.{
  ℕ, suc, sym, ◌==◌, ◌||◌, ◌≡◌, ◌≢◌, ◌<◌, ◌↔◌, ap, subst, ◌∙◌, ℤ, pos, eq_ℤ, List, some, true,
  false, arith, if-true,
}
use pcon_tng.Float.{CFloat}
use pcon_tng.TypeDefs.{IpcDat, SenDat, Tm, number_of_channels, number_of_sensors}
use pcon_tng.Sch.{TmplDat, key_of, max_schedule_recs}
use pcon_tng.Sch.Target.{target_slot}
use pcon_tng.Slab.Laws.{Demands}
use pcon_tng.Daemon.{update_relays}
use pcon_tng.Daemon.Relays.{
  chn, schedule, last_reading, reading, SensorsInRange, sensor_channel-Demands,
}
use pcon_tng.Gateway.{found}
use pcon_tng.Gateway.Fields.{Field, query, lookup}
use pcon_tng.Gateway.Main.{
  strtol, Decimal, new_strtof, word_sensor, word_temp, word_humid, Outcome, stored, store_reading,
  gateway,
}
use pcon_tng.Gateway.Update.{gateway-stored}

eq_refl : (a : ℤ) → eq_ℤ a a ≡ true
eq_refl a = ground arith

-- The template has one record, or its first record's time is the present minute.
abbrev pub FirstApplies : {F : Type 0} → ℕ → TmplDat F → Type 0
FirstApplies key t = (t.rcnt == 1 || (t.rec 0).key == key) ≡ true

module _ {F : Type 0} ⦃fl : CFloat F⦄ ⦃dec : Decimal F⦄ where
  -- A request's end, and the state of a channel after the daemon's update of what is stored.
  pub record Controls (end : Outcome F) (stray : ℕ) (tm : Tm) (hold l_num : ℤ) (j : ℕ)
      (target reading : ℤ) : Type 0 where
    pub ipc : IpcDat F
    pub stores : end ≡ stored l_num ipc
    pub decides :
        ((chn (update_relays stray tm hold ipc).0 j).state ≡ 1)
        ↔ Demands (last_reading ipc tm stray hold j) target reading

  -- When a query of fields has a sensor's number from 1 to 19, and a temperature and a humidity that
  -- can be read and are not 0, and each channel's sensor is one of the twenty, the request stores a
  -- reading by which the daemon's next update decides each channel under sensor control that has this
  -- sensor and whose schedule for the day has one record, or a first record whose time is the present
  -- minute: the channel is switched on exactly when the slab rule demands it for the temperature
  -- reported, the target of that record, and the reading of the last channel before it that is under
  -- sensor control with a schedule that is not empty (or what the controller held on entry).
  pub report_reaches_channel :
      (now beyond : ℕ) (ipc : IpcDat F) (fs : List Field) {n t h : List ℕ}
      {temperature humidity : F} (k : ℕ)
      → lookup word_sensor fs ≡ found n
      → lookup word_temp fs ≡ found t
      → lookup word_humid fs ≡ found h
      → strtol n ≡ pos (suc k)
      → suc k < number_of_sensors
      → new_strtof t ≡ some temperature
      → dec.is_zero temperature ≡ false
      → new_strtof h ≡ some humidity
      → dec.is_zero humidity ≡ false
      → SensorsInRange ipc
      → (stray : ℕ) (tm : Tm) (hold : ℤ) (j : ℕ) → j < number_of_channels
      → (chn ipc j).mode ≡ 2
      → (chn ipc j).sensor_id ≡ pos (suc k)
      → (schedule ipc tm j).rcnt ≢ 0
      → FirstApplies (key_of tm.tm_hour tm.tm_min) (schedule ipc tm j)
      → Controls
          (gateway now ipc beyond (some (query fs)))
          stray
          tm
          hold
          (pos (suc k))
          j
          (fl.to_int ((schedule ipc tm j).rec 0).temp)
          (fl.to_int temperature)
  report_reaches_channel now beyond ipc fs {n} {temperature} {humidity} k fn ft fh number known et
        zt eh zh in_range stray tm hold j below mode same some_records first =
      let after = store_reading (pos (suc k)) temperature humidity now ipc in
      let key = key_of tm.tm_hour tm.tm_min in
      let slot : target_slot key (schedule ipc tm j) ≡ 0 =
        if-true ((schedule ipc tm j).rcnt == 1 || ((schedule ipc tm j).rec 0).key == key) 0
          (schedule ipc tm j).rcnt first in
      let law =
        sensor_channel-Demands after tm stray hold j below mode some_records
          (subst (λ i. i < max_schedule_recs) (sym slot) (omega arith)) in_range in
      let target = fl.to_int ((schedule ipc tm j).rec 0).temp in
      record {
        ipc = after;
        stores = gateway-stored now beyond ipc fs fn ft fh k number known et zt eh zh;
        decides =
            subst
              (λ reading.
                ((chn (update_relays stray tm hold after).0 j).state ≡ 1)
                ↔ Demands (last_reading after tm stray hold j) target reading)
              (ap (λ (s : SenDat F). fl.to_int s.temp)
                (if-true (eq_ℤ (chn ipc j).sensor_id (pos (suc k))) _ _
                  (ap (λ i. eq_ℤ i (pos (suc k))) same ∙ eq_refl (pos (suc k)))))
              (subst
                (λ i.
                  ((chn (update_relays stray tm hold after).0 j).state ≡ 1)
                  ↔ Demands (last_reading after tm stray hold j)
                      (fl.to_int ((schedule ipc tm j).rec i).temp) (reading after tm stray hold j))
                slot law.0);
      }
