-- ===== src/Examples/Systems.antt =====
-- The system of handlers, from a concrete state on.
use roshi.Common.{ℕ, refl}
use roshi.System.{Environment, redeem, start, then}
use roshi.System.Remaining.{AllUnstruck}
use roshi.System.Reachable.{IsConsistent, Reach-IsConsistent}
use roshi.Examples.{key, one_mint}
use roshi.Examples.Handlers.{
  state, state-IsBacked, redeem_context, redeem_args, clock, redeemed, redeem_succeeds,
}

abbrev environment : Environment ℕ
environment = record {
  runtime = one_mint;
  hashv = λ inputs. key 0;
  sub_account_address = λ vault index. key 30;
  associated_token_address = λ wallet mint program. key 31;
  mint = key 7;
}

state-IsConsistent : IsConsistent state
unfolding AllUnstruck
state-IsConsistent = record { backed = state-IsBacked; unstruck = (refl, tt) }

Reach-IsConsistent_example : IsConsistent redeemed
Reach-IsConsistent_example =
    Reach-IsConsistent environment state redeemed
      (then state redeemed start
        (redeem state redeemed redeem_context redeem_args clock refl redeem_succeeds))
      state-IsConsistent
