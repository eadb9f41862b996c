-- ===== src/Tests/Closes.antt =====
-- Examples on closing contexts (Engine/Session).
use luna_openssl_provider.Prelude.{◌≡◌, ◌≤◌, refl, inr, true, false, some, [], ◌∷◌, arith}
use luna_openssl_provider.Engine.Session.State.{luna_rv_severity}
use luna_openssl_provider.Engine.Session.Cache.{luna_cache_delete_all, luna_callback_close_session}
use luna_openssl_provider.Engine.Session.Context.{
  luna_context_set_last_error, luna_rv_needs_recovery,
}
use luna_openssl_provider.Engine.Session.Close.{luna_close_context_w_err}
use luna_openssl_provider.Engine.Session.Init.{luna_init_p11_deferred}
use luna_openssl_provider.Engine.Session.Moves.{cached}
use luna_openssl_provider.Engine.Session.Finishing.{Finished, luna_close_context_w_err-Finished}
use luna_openssl_provider.Engine.Session.Purge.{
  luna_close_context_w_err-NoneCached, luna_close_context_w_err-emptied,
}
use luna_openssl_provider.Engine.Session.Severity.{record_errors, worst, record_errors-worst}
use luna_openssl_provider.Engine.Session.Leak.{close_to_first, delete_all-close_to_first}
use luna_openssl_provider.Engine.Session.Steady.{Steady, luna_init_p11_deferred_result}
use luna_openssl_provider.Tests.Sample.{sample, sample_rules, settings, start, running, in_use}

luna_close_context_w_err-Finished_example :
    Finished sample settings running
      (luna_close_context_w_err sample settings in_use false 0 running).1
luna_close_context_w_err-Finished_example =
    luna_close_context_w_err-Finished sample settings in_use false 0 running refl (omega arith)

-- 0x30 is CKR_DEVICE_ERROR, and 5 asks for no recovery.
luna_close_context_w_err-NoneCached_example :
    cached 9 (luna_close_context_w_err sample settings in_use false 5 running).1 ≤ cached 9 running
luna_close_context_w_err-NoneCached_example =
    luna_close_context_w_err-NoneCached sample sample_rules settings in_use false 5 running
      (inr (λ e. omega (arith, e))) 9

luna_close_context_w_err-emptied_example :
    cached 9 (luna_close_context_w_err sample settings in_use false 0x30 running).1 ≡ 0
unfolding luna_context_set_last_error luna_rv_needs_recovery luna_rv_severity
luna_close_context_w_err-emptied_example =
    luna_close_context_w_err-emptied sample sample_rules settings in_use false 0x30 running
      (inr (λ e. omega (arith, e))) refl (omega arith) refl 9

record_errors-worst_example :
    luna_rv_severity (record_errors in_use (5 ∷ 0xb3 ∷ 0x30 ∷ 0xb3 ∷ [])).rv_last
    ≡ worst (luna_rv_severity 0) (5 ∷ 0xb3 ∷ 0x30 ∷ 0xb3 ∷ [])
record_errors-worst_example = record_errors-worst (5 ∷ 0xb3 ∷ 0x30 ∷ 0xb3 ∷ []) in_use

delete_all-close_to_first_example :
    luna_cache_delete_all (some (luna_callback_close_session sample)) (4 ∷ 5 ∷ []) (true, 9)
    ≡ ([], close_to_first sample (4 ∷ 5 ∷ []) 9)
delete_all-close_to_first_example = delete_all-close_to_first sample 4 (5 ∷ []) true 9

luna_init_p11_deferred_result_example :
    let res = luna_init_p11_deferred sample settings start in
    (res.1.have_c_init ≡ res.0)
    × (res.0 ≡ true → res.1.pid_c_init ≡ 7)
    × Steady (record start { pid_c_init = res.1.pid_c_init }) res.1
luna_init_p11_deferred_result_example = luna_init_p11_deferred_result sample settings start refl
