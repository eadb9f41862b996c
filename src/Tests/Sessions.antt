-- ===== src/Tests/Sessions.antt =====
-- Examples on opening contexts (Engine/Session).
use luna_openssl_provider.Prelude.{ℕ, ◌≡◌, refl, false, arith}
use luna_openssl_provider.Engine.Config.{
  luna_pa_check_lib, luna_get_engine_init, luna_get_engine2_init, luna_get_enable_login_init,
  luna_ps_check_lib,
}
use luna_openssl_provider.Engine.Password.{luna_pw_login}
use luna_openssl_provider.Engine.Session.Cache.{luna_cache_pop, luna_open_session}
use luna_openssl_provider.Engine.Session.Commands.{
  next_init_count, luna_load_p11_deferred, luna_do_deferred_login, login_slot,
}
use luna_openssl_provider.Engine.Session.Init.{
  luna_init_p11_conditional, luna_fini_p11, luna_init_p11_deferred, start_p11, call_c_initialize,
  after_c_initialize, run_init_string,
}
use luna_openssl_provider.Engine.Session.State.{Context, context_init}
use luna_openssl_provider.Engine.Session.Context.{
  luna_open_context_ndx, open_locked, finalize_if_forked, open_on_slot, open_login, open_succeeded,
  note_process, choose_slot,
}
use luna_openssl_provider.Engine.Session.World.{
  World, opens, closes, Reach, here, next, after_open, after_close,
}
use luna_openssl_provider.Engine.Session.Exclusive.{IsStart, Exclusive, Reach-Exclusive}
use luna_openssl_provider.Engine.Session.Counting.{Ending, luna_open_context_ndx-Ending}
use luna_openssl_provider.Engine.Session.Process.{open_locked-pid}
use luna_openssl_provider.Tests.Sample.{sample, sample_rules, settings, start, start_world}

-- Thread 0 opens, thread 1 opens, thread 0 closes.
abbrev world1 : World ℕ
world1 = after_open sample settings start_world 0 context_init 0

abbrev world2 : World ℕ
world2 = after_open sample settings world1 1 context_init 0

abbrev first_context : Context
first_context = (luna_open_context_ndx sample settings context_init 0 start).1

abbrev world3 : World ℕ
world3 = after_close sample settings world2 0 first_context false 0

three_steps : Reach sample settings start_world world3
unfolding luna_open_context_ndx open_locked luna_init_p11_conditional finalize_if_forked
    luna_fini_p11 luna_init_p11_deferred luna_load_p11_deferred start_p11 call_c_initialize
    luna_pa_check_lib after_c_initialize run_init_string luna_get_engine_init luna_get_engine2_init
    luna_do_deferred_login login_slot luna_get_enable_login_init open_on_slot luna_cache_pop
    luna_open_session open_login luna_pw_login luna_ps_check_lib open_succeeded note_process
    choose_slot next_init_count
three_steps =
    next
      (next (next here (opens 0 0 context_init refl refl (omega arith) refl))
        (opens 1 0 context_init refl refl (omega arith) refl))
      (closes 0 first_context false 0 refl refl)

start_world-IsStart : IsStart start_world
start_world-IsStart = record { first_empty = refl; second_empty = refl; unused = λ i. refl }

Reach-Exclusive_example : Exclusive sample sample_rules world3
Reach-Exclusive_example =
    Reach-Exclusive sample sample_rules settings start_world-IsStart three_steps

luna_open_context_ndx-Ending_example :
    Ending sample settings start (luna_open_context_ndx sample settings context_init 0 start)
luna_open_context_ndx-Ending_example =
    luna_open_context_ndx-Ending sample settings context_init 0 start refl refl

open_locked-pid_example :
    (open_locked sample settings 0 start).2.pid_c_init
    ≡ (open_locked sample settings 0 start).2.self
unfolding luna_open_context_ndx open_locked luna_init_p11_conditional finalize_if_forked
    luna_fini_p11 luna_init_p11_deferred luna_load_p11_deferred start_p11 call_c_initialize
    luna_pa_check_lib after_c_initialize run_init_string luna_get_engine_init luna_get_engine2_init
    luna_do_deferred_login login_slot luna_get_enable_login_init open_on_slot luna_cache_pop
    luna_open_session open_login luna_pw_login luna_ps_check_lib open_succeeded note_process
    choose_slot next_init_count
open_locked-pid_example = open_locked-pid sample settings 0 start refl refl
