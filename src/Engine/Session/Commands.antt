-- ===== src/Engine/Session/Commands.antt =====
-- The commands and logins of engine/e_gem.c that the start of the PKCS#11 library runs:
-- luna_load_p11_deferred, luna_set_app_id, luna_open_session_and_login, luna_cmdarg_engine_ext2 and
-- luna_do_deferred_login.
use luna_openssl_provider.Prelude.{
  ℕ, ◌+◌, ◌%◌, ◌^◌, Bool, true, false, ◌&&◌, ◌||◌, not, Option, none, some, [], Bytes, ◌==◌,
  is_zero, if◌then◌else◌,
}
use luna_openssl_provider.Cryptoki.{
  Cryptoki, ckr_ok, ckr_user_already_logged_in, luna_invalid_handle,
}
use luna_openssl_provider.Engine.Config.{
  Config, luna_get_engine2_init, luna_get_enable_login_init, luna_get_user_type,
}
use luna_openssl_provider.Engine.Password.{luna_pw_login}
use luna_openssl_provider.Engine.Slotid.{SessionDesc, luna_parse_session_desc}
use luna_openssl_provider.Engine.Session.State.{get, put, Globals}
use luna_openssl_provider.Engine.Session.Cache.{luna_open_session, luna_close_session}

-- The ENGINE_CMD_LUNA_ commands that take a slot string.
pub data EngineCmd : Type 0 where
  engineinit engine2init enginearg open_session_by_string : EngineCmd
  login_by_string logout_by_string close_session_by_string other : EngineCmd

-- `luna_count_c_init++`, an `unsigned` that is never 0.
unfoldable pub next_init_count : ℕ → ℕ
next_init_count n = let n' = (n + 1) % 2 ^ 32 in if n' == 0 then 1 else n'

module _ (c : Cryptoki) (cfg : Config) where
  unfoldable pub luna_load_p11_deferred : Globals c.Token → Bool × Globals c.Token
  luna_load_p11_deferred g =
      if g.have_c_funclist
      then (true, g)
      else let (loaded, t) = c.load_library g.token in
        if loaded
        then (true, record g { token = t; have_c_funclist = true })
        else (false, record g { token = t })

  unfoldable pub luna_set_app_id : SessionDesc → c.Token → Bool × c.Token
  luna_set_app_id d t =
      let (rv, t') = c.ca_set_application_id d.app_id_hi d.app_id_low t in
      if not (is_zero d.app_id_hi)
        && not (is_zero d.app_id_low)
        && is_zero (luna_get_enable_login_init cfg)
      then (rv == ckr_ok, t')
      else (true, t)

  abbrev pin_bytes : Option Bytes → Bytes
  pin_bytes none = []
  pin_bytes (some pin) = pin

  -- The handle that was opened, if any, and whether the login went well too.
  unfoldable pub luna_open_session_and_login :
      ℕ → Option Bytes → c.Token → Option ℕ × Bool × c.Token
  luna_open_session_and_login slotid password t =
      let (opened, t1) = luna_open_session c slotid t in
      elim opened [
        | none ↦ (none, false, t1)
        | some h ↦
            let (rv, t2) = c.c_login h (luna_get_user_type cfg) (pin_bytes password) t1 in
            (some h, rv == ckr_user_already_logged_in || rv == ckr_ok, t2)
      ]

  -- The switch on the command.
  unfoldable pub run_engine_cmd : EngineCmd → SessionDesc → Globals c.Token → Bool × Globals c.Token
  run_engine_cmd engineinit d g =
      let s = g.slots.at0 in
      (true, record g { slots = put g.slots 0 (record s { slot_id = d.slot; session_handle = 0 }) })
  run_engine_cmd engine2init d g =
      let s = g.slots.at1 in
      (true, record g { slots = put g.slots 1 (record s { slot_id = d.slot; session_handle = 0 }) })
  run_engine_cmd logout_by_string d g =
      let (rv, t) = c.c_logout g.slots.at0.session_handle g.token in
      (rv == ckr_ok, record g { token = t })
  run_engine_cmd close_session_by_string d g =
      let s = g.slots.at0 in
      let (rc, t) = luna_close_session c s.session_handle g.token in
      (rc == 1, record g { token = t; slots = put g.slots 0 (record s { session_handle = 0 }) })
  run_engine_cmd login_by_string d g =
      let s = g.slots.at0 in
      let (opened, done, t) = luna_open_session_and_login d.slot d.password g.token in
      elim opened [
        | none ↦
            (done, record g { token = t; slots = put g.slots 0 (record s { slot_id = d.slot }) })
        | some h ↦ (
          done,
          record g {
            token = t;
            slots = put g.slots 0 (record s { slot_id = d.slot; session_handle = h });
          },
        )
      ]
  run_engine_cmd other d g = (true, g)
  run_engine_cmd _ d g =
      let s = g.slots.at0 in
      let (opened, t) = luna_open_session c d.slot g.token in
      elim opened [
        | none ↦
            (false, record g { token = t; slots = put g.slots 0 (record s { slot_id = d.slot }) })
        | some h ↦ (
          true,
          record g {
            token = t;
            slots = put g.slots 0 (record s { slot_id = d.slot; session_handle = h });
          },
        )
      ]

  unfoldable pub luna_cmdarg_engine_ext2 :
      Bytes → EngineCmd → Globals c.Token → Bool × Globals c.Token
  luna_cmdarg_engine_ext2 arg cmd g =
      if not g.have_c_init then (false, g) else elim (luna_parse_session_desc c arg g.token) [
        | none ↦ (false, g)
        | some d ↦
            let (set, t) = luna_set_app_id d g.token in
            if set
            then run_engine_cmd cmd d (record g { token = t })
            else (false, record g { token = t })
      ]

  -- One round of the loop in luna_do_deferred_login.
  unfoldable pub login_slot : ℕ → Globals c.Token → Bool × Globals c.Token
  login_slot ii g =
      let pw = get g.pws ii in
      if is_zero (luna_get_enable_login_init cfg) then (true, g) else elim pw.sz_pass [
        | none ↦ (false, g)
        | some _ ↦
            if not (pw.bool_init == 1)
            then (false, g)
            else let (opened, t) = luna_open_session c (get g.slots ii).slot_id g.token in
              elim opened [
                | none ↦ (false, record g { token = t })
                | some h ↦
                    let (rv, pw', t') = luna_pw_login c cfg (record pw { h_session = h }) h t in
                    if rv == ckr_ok
                    then (true, record g { token = t'; pws = put g.pws ii pw' })
                    else let (_, t'') = luna_close_session c h t' in
                      (
                        false,
                        record g {
                          token = t'';
                          pws = put g.pws ii (record pw' { h_session = luna_invalid_handle });
                        },
                      )
              ]
      ]

  unfoldable pub luna_do_deferred_login : Globals c.Token → Bool × Globals c.Token
  luna_do_deferred_login g =
      if not g.have_c_init
      then (false, g)
      else let (first, g1) = login_slot 0 g in
        if not first
        then (false, g1)
        else elim (luna_get_engine2_init cfg) [ none ↦ (true, g1) | some _ ↦ login_slot 1 g1 ]
