-- ===== src/Contract/Progress.antt =====
-- src/lang/eval/Eval.ml: how the configuration that a statement leaves stands to the one that it found.
use Prim.Native.String.{String}
use mathlib.Core.List.{append_assoc, append-nil}
use mathlib.Core.Path.{ap₂}
use scilla.Base.{
  ℕ, ◌+◌, ◌%◌, ◌≡◌, refl, sym, ◌∙◌, true, List, [], ◌∷◌, ◌++◌, ◌⊎◌, inl, inr, All, All-append,
  arith,
}
use scilla.Contract.Syntax.{Kinds, Literal, Env, Component}
use scilla.Contract.Configuration.{u128, Configuration, bind_var}
use scilla.Contract.Statements.{bind_each}
use scilla.Contract.Entries.{Sendable, Loggable}

wrapped_once : (x : ℕ) → (x % u128 + 0) % u128 ≡ x % u128
wrapped_once x = omega arith

module _ {k : Kinds} where
  -- The incoming money is left alone, or the balance has taken all of it.
  pub record Holds (c c' : Configuration k) : Type 0 where
    pub balance_held : c'.balance ≡ c.balance
    pub incoming_held : c'.incoming_funds ≡ c.incoming_funds
    pub accepted_held : c'.accepted ≡ c.accepted

  pub record Accepts (c c' : Configuration k) : Type 0 where
    pub balance_gains : c'.balance ≡ (c.balance + c.incoming_funds) % u128
    pub incoming_spent : c'.incoming_funds ≡ 0
    pub accepted_set : c'.accepted ≡ true

  abbrev pub Money : Configuration k → Configuration k → Type 0
  Money c c' = Holds c c' ⊎ Accepts c c'

  pub record Sends (c c' : Configuration k) : Type 0 where
    pub sent : List (Literal k)
    pub emitted_grows : c'.emitted ≡ c.emitted ++ sent
    pub sent_sendable : All Sendable sent

  pub record Logs (c c' : Configuration k) : Type 0 where
    pub logged : List (Literal k)
    pub events_grow : c'.events ≡ logged ++ c.events
    pub logged_loggable : All Loggable logged

  -- What no statement changes.
  pub record Keeps (c c' : Configuration k) : Type 0 where
    pub init_env_kept : c'.init_env ≡ c.init_env
    pub fields_kept : c'.fields ≡ c.fields
    pub blockchain_state_kept : c'.blockchain_state ≡ c.blockchain_state
    pub procedures_kept : c'.procedures ≡ c.procedures

  pub record Ran (c c' : Configuration k) : Type 0 where
    pub money : Money c c'
    pub sends : Sends c c'
    pub logs : Logs c c'
    pub keeps : Keeps c c'

  Money-trans : (a b c : Configuration k) → Money a b → Money b c → Money a c
  Money-trans a b c (inl p) (inl q) = inl (record {
    balance_held = q.balance_held ∙ p.balance_held;
    incoming_held = q.incoming_held ∙ p.incoming_held;
    accepted_held = q.accepted_held ∙ p.accepted_held;
  })
  Money-trans a b c (inl p) (inr q) = inr (record {
    balance_gains =
        q.balance_gains ∙ ap₂ (λ (x y : ℕ). (x + y) % u128) p.balance_held p.incoming_held;
    incoming_spent = q.incoming_spent;
    accepted_set = q.accepted_set;
  })
  Money-trans a b c (inr p) (inl q) = inr (record {
    balance_gains = q.balance_held ∙ p.balance_gains;
    incoming_spent = q.incoming_held ∙ p.incoming_spent;
    accepted_set = q.accepted_held ∙ p.accepted_set;
  })
  Money-trans a b c (inr p) (inr q) = inr (record {
    balance_gains =
        q.balance_gains
        ∙ ap₂ (λ (x y : ℕ). (x + y) % u128) p.balance_gains p.incoming_spent
        ∙ wrapped_once (a.balance + a.incoming_funds);
    incoming_spent = q.incoming_spent;
    accepted_set = q.accepted_set;
  })

  nothing_sent : (c c' : Configuration k) → c'.emitted ≡ c.emitted → Sends c c'
  nothing_sent c c' e = record {
    sent = [];
    emitted_grows = e ∙ sym (append-nil c.emitted);
    sent_sendable = tt;
  }

  nothing_logged : (c c' : Configuration k) → c'.events ≡ c.events → Logs c c'
  nothing_logged c c' e = record { logged = []; events_grow = e; logged_loggable = tt }

  all_kept :
      (c c' : Configuration k)
      → c'.init_env ≡ c.init_env
      → c'.fields ≡ c.fields
      → c'.blockchain_state ≡ c.blockchain_state
      → c'.procedures ≡ c.procedures
      → Keeps c c'
  all_kept c c' i f b p = record {
    init_env_kept = i;
    fields_kept = f;
    blockchain_state_kept = b;
    procedures_kept = p;
  }

  nothing_paid :
      (c c' : Configuration k)
      → Holds c c'
      → c'.emitted ≡ c.emitted
      → c'.events ≡ c.events
      → Keeps c c'
      → Ran c c'
  nothing_paid c c' h s l p = record {
    money = inl h;
    sends = nothing_sent c c' s;
    logs = nothing_logged c c' l;
    keeps = p;
  }

  pub Ran-env : (c : Configuration k) (e : Env k) → Ran c (record c { env = e })
  Ran-env c e =
      nothing_paid _ _ (record { balance_held = refl; incoming_held = refl; accepted_held = refl })
        refl refl (all_kept _ _ refl refl refl refl)

  pub Ran-refl : (c : Configuration k) → Ran c c
  Ran-refl c = Ran-env c c.env

  -- A procedure's run, from its configuration back to its caller's.
  pub Ran-call :
      (c c' : Configuration k) (e : Env k) (ps : List (Component k)) (names : List String)
      → Ran (record c { env = e; procedures = ps }) c'
      → Ran c (record c' { env = c.env; procedures = c.procedures; component_stack = names })
  Ran-call c c' e ps names r = record {
    money = back r.money;
    sends = record {
      sent = r.sends.sent;
      emitted_grows = r.sends.emitted_grows;
      sent_sendable = r.sends.sent_sendable;
    };
    logs = record {
      logged = r.logs.logged;
      events_grow = r.logs.events_grow;
      logged_loggable = r.logs.logged_loggable;
    };
    keeps = record {
      init_env_kept = r.keeps.init_env_kept;
      fields_kept = r.keeps.fields_kept;
      blockchain_state_kept = r.keeps.blockchain_state_kept;
      procedures_kept = refl;
    };
  }
    where
      back :
          Money (record c { env = e; procedures = ps }) c'
          → Money c (record c' { env = c.env; procedures = c.procedures; component_stack = names })
      back (inl h) = inl (record {
        balance_held = h.balance_held;
        incoming_held = h.incoming_held;
        accepted_held = h.accepted_held;
      })
      back (inr h) = inr (record {
        balance_gains = h.balance_gains;
        incoming_spent = h.incoming_spent;
        accepted_set = h.accepted_set;
      })

  pub Ran-trans : {a b c : Configuration k} → Ran a b → Ran b c → Ran a c
  Ran-trans {a} r s = record {
    money = Money-trans _ _ _ r.money s.money;
    sends = record {
      sent = r.sends.sent ++ s.sends.sent;
      emitted_grows =
          rw (s.sends.emitted_grows, r.sends.emitted_grows)
            (append_assoc a.emitted r.sends.sent s.sends.sent);
      sent_sendable = All-append Sendable _ _ r.sends.sent_sendable s.sends.sent_sendable;
    };
    logs = record {
      logged = s.logs.logged ++ r.logs.logged;
      events_grow =
          rw (s.logs.events_grow, r.logs.events_grow)
            (sym (append_assoc s.logs.logged r.logs.logged a.events));
      logged_loggable = All-append Loggable _ _ s.logs.logged_loggable r.logs.logged_loggable;
    };
    keeps =
        let p = r.keeps in
        let q = s.keeps in
        record {
          init_env_kept = q.init_env_kept ∙ p.init_env_kept;
          fields_kept = q.fields_kept ∙ p.fields_kept;
          blockchain_state_kept = q.blockchain_state_kept ∙ p.blockchain_state_kept;
          procedures_kept = q.procedures_kept ∙ p.procedures_kept;
        };
  }

  pub bind_each-Ran : (c : Configuration k) (bs : Env k) → Ran c (bind_each c bs)
  unfolding bind_each bind_var
  bind_each-Ran c [] = Ran-refl c
  bind_each-Ran c (b ∷ bs) = Ran-trans (Ran-env c _) (bind_each-Ran (bind_var c b.0 b.1) bs)

  pub Ran-send :
      (c : Configuration k) (ls : List (Literal k))
      → All Sendable ls
      → Ran c (record c { emitted = c.emitted ++ ls })
  Ran-send c ls p = record {
    money = inl (record { balance_held = refl; incoming_held = refl; accepted_held = refl });
    sends = record { sent = ls; emitted_grows = refl; sent_sendable = p };
    logs = nothing_logged _ _ refl;
    keeps = all_kept _ _ refl refl refl refl;
  }

  pub Ran-log :
      (c : Configuration k) (l : Literal k)
      → Loggable l
      → Ran c (record c { events = l ∷ c.events })
  Ran-log c l p = record {
    money = inl (record { balance_held = refl; incoming_held = refl; accepted_held = refl });
    sends = nothing_sent _ _ refl;
    logs = record { logged = l ∷ []; events_grow = refl; logged_loggable = (p, tt) };
    keeps = all_kept _ _ refl refl refl refl;
  }

  pub Ran-accept :
      (c : Configuration k)
      → Ran c (record c {
        balance = (c.balance + c.incoming_funds) % u128;
        accepted = true;
        incoming_funds = 0;
      })
  Ran-accept c = record {
    money = inr (record { balance_gains = refl; incoming_spent = refl; accepted_set = refl });
    sends = nothing_sent _ _ refl;
    logs = nothing_logged _ _ refl;
    keeps = all_kept _ _ refl refl refl refl;
  }
