-- ===== src/Engine/Session/World.antt =====
-- One process with its threads: the globals of engine/e_gem.c and a luna_context_t for each thread.
-- A step is one critical section of one thread, or an event outside: the order of the steps is any.
use luna_openssl_provider.Prelude.{ℕ, ◌+◌, ◌^◌, ◌<◌, ◌≡◌, ◌≢◌, Bool, false, ◌==◌, if◌then◌else◌}
use luna_openssl_provider.Cryptoki.{Cryptoki}
use luna_openssl_provider.Engine.Config.{Config}
use luna_openssl_provider.Engine.Session.State.{Context, context_init, Globals}
use luna_openssl_provider.Engine.Session.Context.{
  Closing, closed, waiting, luna_context_set_last_error, luna_open_context_ndx,
}
use luna_openssl_provider.Engine.Session.Close.{luna_close_context_w_err, close_resume}

-- A thread has a context at hand, or waits inside luna_close_context_w_err.
pub data Thread : Type 0 where
  user : Context → Thread
  recovering : Context → Thread

abbrev pub thread_of : Closing → Thread
thread_of (closed ctx) = user ctx
thread_of (waiting ctx) = recovering ctx

pub record World (T : Type 0) : Type 0 where
  pub globals : Globals T
  pub threads : ℕ → Thread

abbrev pub assign : (ℕ → Thread) → ℕ → Thread → ℕ → Thread
assign f i v j = if j == i then v else f j

abbrev pub at_pid : {T : Type 0} → World T → ℕ → World T
at_pid w pid = let g = w.globals in record w { globals = record g { self = pid } }

module _ (c : Cryptoki) (cfg : Config) where
  abbrev pub after_open : World c.Token → ℕ → Context → ℕ → World c.Token
  after_open w i ctx ndx =
      let res = luna_open_context_ndx c cfg ctx ndx w.globals in
      record { globals = res.2; threads = assign w.threads i (user res.1) }

  abbrev pub after_close : World c.Token → ℕ → Context → Bool → ℕ → World c.Token
  after_close w i ctx flag_err rv =
      let res = luna_close_context_w_err c cfg ctx flag_err rv w.globals in
      record { globals = res.1; threads = assign w.threads i (thread_of res.0) }

  abbrev pub after_resume : World c.Token → ℕ → Context → World c.Token
  after_resume w i ctx =
      let res = close_resume c cfg ctx w.globals in
      record { globals = res.1; threads = assign w.threads i (user res.0) }

  pub data Step (w u : World c.Token) : Type 0 where
    -- luna_open_context_ndx; `luna_count_c_init` does not wrap
    opens :
        (i ndx : ℕ) (ctx : Context)
        → w.threads i ≡ user ctx
        → w.globals.flag_recovery ≡ false
        → w.globals.init_count + 1 < 2 ^ 32
        → u ≡ after_open w i ctx ndx
        → Step w u
    -- luna_close_context_w_err
    closes :
        (i : ℕ) (ctx : Context) (flag_err : Bool) (rv : ℕ)
        → w.threads i ≡ user ctx
        → u ≡ after_close w i ctx flag_err rv
        → Step w u
    -- the rest of it, after the wait
    resumes :
        (i : ℕ) (ctx : Context)
        → w.threads i ≡ recovering ctx
        → w.globals.activity ≡ 0
        → u ≡ after_resume w i ctx
        → Step w u
    -- a failed call between, luna_context_set_last_error
    notes :
        (i : ℕ) (ctx : Context) (rv : ℕ)
        → w.threads i ≡ user ctx
        → u ≡ record w { threads = assign w.threads i (user (luna_context_set_last_error ctx rv)) }
        → Step w u
    -- a new context in place of one that holds nothing
    starts :
        (i : ℕ) (ctx : Context)
        → w.threads i ≡ user ctx
        → ctx.flag_init ≡ false
        → u ≡ record w { threads = assign w.threads i (user context_init) }
        → Step w u
    -- fork(): the child goes on with a copy of the memory, under a process id of its own
    forks :
        (pid : ℕ)
        → pid ≢ w.globals.self
        → ((i : ℕ) (ctx : Context) → w.threads i ≡ user ctx → ctx.pid ≢ pid)
        → u ≡ at_pid w pid
        → Step w u

  pub data Reach (w : World c.Token) : World c.Token → Type 0 where
    here : Reach w w
    next : {u v : World c.Token} → Reach w u → Step u v → Reach w v
