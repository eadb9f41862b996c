-- ===== src/Engine/Session/Severity.antt =====
-- luna_rv_severity and luna_context_set_last_error: a context remembers its worst error.
use luna_openssl_provider.Prelude.{
  ℕ, ◌≡◌, refl, ◌⊎◌, ◌↔◌, true, List, [], ◌∷◌, arith, max, ltb, ltb→lt, Bool-cases, inl, inr,
}
use luna_openssl_provider.Cryptoki.{
  ckr_device_error, ckr_token_not_present, ckr_session_handle_invalid,
}
use luna_openssl_provider.Engine.Session.State.{Context, luna_rv_severity}
use luna_openssl_provider.Engine.Session.Context.{
  luna_context_set_last_error, luna_rv_needs_recovery, luna_rv_needs_finalize,
}

-- A history of failed calls on one context.
unfoldable pub record_errors : Context → List ℕ → Context
record_errors ctx [] = ctx
record_errors ctx (rv ∷ rvs) = record_errors (luna_context_set_last_error ctx rv) rvs

abbrev pub worst : ℕ → List ℕ → ℕ
worst s [] = s
worst s (rv ∷ rvs) = worst (max s (luna_rv_severity rv)) rvs

set_last_error-severity :
    (ctx : Context) (rv : ℕ)
    → luna_rv_severity (luna_context_set_last_error ctx rv).rv_last
      ≡ max (luna_rv_severity ctx.rv_last) (luna_rv_severity rv)
unfolding luna_context_set_last_error
set_last_error-severity ctx rv =
    elim (Bool-cases (ltb (luna_rv_severity ctx.rv_last) (luna_rv_severity rv))) [
      | inl e ↦ simp e (omega (arith, ltb→lt _ _ e))
      | inr e ↦ simp e (ground arith)
    ]

-- After any history of errors, the severity of the code that the context remembers is the greatest
-- of the history's and of the one before.
pub record_errors-worst :
    (rvs : List ℕ) (ctx : Context)
    → luna_rv_severity (record_errors ctx rvs).rv_last ≡ worst (luna_rv_severity ctx.rv_last) rvs
unfolding record_errors
record_errors-worst [] ctx = refl
record_errors-worst (rv ∷ rvs) ctx =
    rw (← set_last_error-severity ctx rv)
      (record_errors-worst rvs (luna_context_set_last_error ctx rv))

-- A code that asks for C_Finalize asks for recovery; recovery is asked for by exactly three codes,
-- and C_Finalize by two of them.
pub needs_codes :
    (rv : ℕ)
    → ((luna_rv_needs_recovery rv ≡ true) ↔ (
        (rv ≡ ckr_device_error) ⊎ (rv ≡ ckr_token_not_present) ⊎ (rv ≡ ckr_session_handle_invalid)))
      × ((luna_rv_needs_finalize rv ≡ true)
          ↔ ((rv ≡ ckr_device_error) ⊎ (rv ≡ ckr_token_not_present)))
unfolding luna_rv_needs_recovery luna_rv_needs_finalize luna_rv_severity
needs_codes rv = ground arith
