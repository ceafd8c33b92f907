-- ===== src/Breaker/Examples.antt =====
-- A breaker on a server in memory, with the default settings.
use webhook_relay_service.Redis.{live}
use webhook_relay_service.RedisMemory.{empty, memory}
use webhook_relay_service.Redis.Keys.{key_eq}
use webhook_relay_service.Prelude.{
  arith, codes, false, if◌then◌else◌, leb, none, refl, text_eq, true, ◌≡◌, ◌≢◌,
}
use webhook_relay_service.Model.Settings.{default_settings}
use webhook_relay_service.Breaker.Results.{failures, phase-record_failure}
use webhook_relay_service.Breaker.Probes.{failed_probes_stick}
use webhook_relay_service.Breaker.Racing.{all_resume, answered, crowd, racing-pass, reads_state}
use webhook_relay_service.Breaker.Phases.{is_open-ask, is_there, phase, opened, closed, ask}
use webhook_relay_service.Breaker.Lasting.{IsLasting}
use webhook_relay_service.Breaker.{
  CircuitBreaker, is_open, open_word, record_failure, cb_open_since, new, time, cb_state,
  cb_half_tested,
}

abbrev breaker : CircuitBreaker
breaker = new default_settings (codes "https://a.example")

-- Open since second 100.
abbrev tripped_state : memory.State
tripped_state =
    memory.set 100000 (cb_open_since breaker.url) (time 100000) none
      (memory.set 100000 (cb_state breaker.url) open_word none empty)

is_open_in_cooldown : (is_open memory breaker 129999 tripped_state).0 ≡ true
unfolding is_open key_eq text_eq new
is_open_in_cooldown = refl

tripped_state-IsLasting : IsLasting memory breaker tripped_state
unfolding key_eq text_eq new
tripped_state-IsLasting = (refl, refl, tt)

tripped_state-opened : phase memory breaker 130000 tripped_state ≡ opened 100000 false
unfolding key_eq text_eq new
tripped_state-opened = refl

opened≢closed : opened 100000 false ≢ closed
opened≢closed e = cc

is_open-ask_example :
    ((is_open memory breaker 130000 tripped_state).0
      ≡ (ask breaker.cooldown 130000 (phase memory breaker 130000 tripped_state)).0)
    × (phase memory breaker 130000 (is_open memory breaker 130000 tripped_state).1
        ≡ (ask breaker.cooldown 130000 (phase memory breaker 130000 tripped_state)).1)
is_open-ask_example = is_open-ask memory breaker 130000 tripped_state

phase-record_failure_example :
    phase memory breaker 140000 (record_failure memory breaker 130000 tripped_state) ≡ (
      if leb breaker.threshold (failures memory breaker 130000 140000 tripped_state)
      then opened 130000
          (is_there (live 140000 (memory.entry (cb_half_tested breaker.url) tripped_state)))
      else phase memory breaker 140000 tripped_state)
phase-record_failure_example = phase-record_failure memory breaker 130000 140000 tripped_state

racing-pass_example :
    let first =
      all_resume memory breaker 130000 (crowd memory breaker 130000 3 reads_state) tripped_state in
    let second = all_resume memory breaker 130000 first.0 first.1 in
    (all_resume memory breaker 130000 second.0 second.1).0
    ≡ crowd memory breaker 130000 3 (answered false)
unfolding key_eq text_eq new
racing-pass_example =
    racing-pass memory breaker 130000 3 100000 tripped_state refl refl (omega arith)

failed_probes_stick_example :
    let first = is_open memory breaker 200000 tripped_state in
    let second = is_open memory breaker 200000 first.1 in
    let failed =
      record_failure memory breaker 200000 (record_failure memory breaker 200000 second.1) in
    (first.0 ≡ false) × (second.0 ≡ false) × ((is_open memory breaker 999999999 failed).0 ≡ true)
unfolding key_eq text_eq new
failed_probes_stick_example =
    failed_probes_stick memory breaker 200000 tripped_state 999999999 tripped_state-IsLasting refl
      (omega arith) refl (omega arith)
