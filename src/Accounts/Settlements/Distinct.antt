-- ===== src/Accounts/Settlements/Distinct.antt =====
-- process_withdrawals.rs, the loader: the tickets that come out of it.
use roshi.Common.{
  ◌<◌, ◌≢◌, ◌≡◌, sym, subst, arith, false, not, ◌||◌, List, [], ◌∷◌, ◌++◌, ◌==◌, ==→ne, not-false,
  or_false,
}
use roshi.Common.Result.{ok, >>=-eq-ok, ok_inj, fail_if_inv, fail_if}
use roshi.Common.Error.{program_error, invalid_withdrawal_ticket_account}
use roshi.Common.Bytes.{Key, bytes_eq, bytes_eq→eq, bytes_eq-ne}
use roshi.Vault.{Vault}
use roshi.Token.{Account, verify_token_account_mint}
use roshi.Withdrawals.{TicketSettlement}
use roshi.Accounts.{Platform, require_writable, load_as_ticket}
use roshi.Accounts.Settlements.{is_listed, verify_ticket_address, load_settlement, load_settlements}

-- A settlement pays the owner and the recipient that its ticket names, for some shares.
pub record IsDue (p : Platform) (vault_account : Key) (s : TicketSettlement) : Type 0 where
  pub vault : s.ticket.vault ≡ vault_account
  pub owner : s.ticket.owner ≡ s.owner
  pub recipient : s.ticket.recipient_token_account ≡ s.destination
  pub shares : 0 < s.ticket.shares_burned
  pub address : verify_ticket_address p s.ticket_account vault_account s.owner s.ticket ≡ ok tt

unfoldable pub AllDue : Platform → Key → List TicketSettlement → Type 0
AllDue p vault_account [] = Unit {0}
AllDue p vault_account (s ∷ rest) = IsDue p vault_account s × AllDue p vault_account rest

-- No ticket's account is named twice.
unfoldable pub IsFresh : Key → List TicketSettlement → Type 0
IsFresh key [] = Unit {0}
IsFresh key (s ∷ rest) = (s.ticket_account ≢ key) × IsFresh key rest

unfoldable pub AllDistinct : List TicketSettlement → Type 0
AllDistinct [] = Unit {0}
AllDistinct (s ∷ rest) = IsFresh s.ticket_account rest × AllDistinct rest

is_listed-IsFresh :
    (p : Platform) (key : Key) (ts : List TicketSettlement)
    → is_listed p key ts ≡ false
    → IsFresh key ts
unfolding is_listed IsFresh
is_listed-IsFresh p key [] h = tt
is_listed-IsFresh p key (s ∷ ts) h =
    let (other, rest) = or_false (bytes_eq s.ticket_account key) _ h in
    (bytes_eq-ne s.ticket_account key other, is_listed-IsFresh p key ts rest)

IsFresh-append :
    (key : Key) (ts : List TicketSettlement) (s : TicketSettlement)
    → IsFresh key ts
    → s.ticket_account ≢ key
    → IsFresh key (ts ++ (s ∷ []))
unfolding IsFresh
IsFresh-append key [] s fresh other = (other, tt)
IsFresh-append key (t ∷ ts) s fresh other = (fresh.0, IsFresh-append key ts s fresh.1 other)

AllDistinct-append :
    (ts : List TicketSettlement) (s : TicketSettlement)
    → AllDistinct ts
    → IsFresh s.ticket_account ts
    → AllDistinct (ts ++ (s ∷ []))
unfolding AllDistinct IsFresh
AllDistinct-append [] s distinct fresh = (tt, tt)
AllDistinct-append (t ∷ ts) s distinct fresh = (
  IsFresh-append t.ticket_account ts s distinct.0 (λ same. fresh.0 (sym same)),
  AllDistinct-append ts s distinct.1 fresh.1,
)

AllDue-append :
    (p : Platform) (vault_account : Key) (ts : List TicketSettlement) (s : TicketSettlement)
    → AllDue p vault_account ts
    → IsDue p vault_account s
    → AllDue p vault_account (ts ++ (s ∷ []))
unfolding AllDue
AllDue-append p vault_account [] s all due = (due, tt)
AllDue-append p vault_account (t ∷ ts) s all due =
    (all.0, AllDue-append p vault_account ts s all.1 due)

load_settlement-IsDue :
    (p : Platform) (v : Vault) (vault_account : Key) (ts : List TicketSettlement) (a b c : Account)
    {s : TicketSettlement}
    → load_settlement p v vault_account ts a b c ≡ ok s
    → IsDue p vault_account s × IsFresh s.ticket_account ts
unfolding load_settlement
load_settlement-IsDue p v vault_account ts a b c {s} h =
    let (_, _, h) = >>=-eq-ok (require_writable a) _ h in
    let (_, _, h) = >>=-eq-ok (require_writable b) _ h in
    let (_, _, h) = >>=-eq-ok (require_writable c) _ h in
    let (ticket, _, h) = >>=-eq-ok (load_as_ticket p a) _ h in
    let (_, bound, h) =
      >>=-eq-ok
        (fail_if
          (not (bytes_eq ticket.vault vault_account)
            || not (bytes_eq ticket.owner b.key)
            || not (bytes_eq ticket.recipient_token_account c.key)
            || (ticket.shares_burned == 0))
          (program_error invalid_withdrawal_ticket_account))
        _ h in
    let (_, address, h) =
      >>=-eq-ok (verify_ticket_address p a.key vault_account b.key ticket) _ h in
    let (_, _, h) = >>=-eq-ok (verify_token_account_mint c v.base_mint) _ h in
    let (_, fresh, made) =
      >>=-eq-ok (fail_if (is_listed p a.key ts) (program_error invalid_withdrawal_ticket_account)) _
        h in
    let (bound, shares) = or_false _ _ (fail_if_inv _ _ bound) in
    let (bound, recipient) = or_false _ _ bound in
    let (vault, owner) = or_false _ _ bound in
    let some_shares = ==→ne _ _ shares in
    let loaded : TicketSettlement = record {
      ticket_account = a.key;
      owner = b.key;
      destination = c.key;
      ticket = ticket;
    } in
    subst (λ (y : TicketSettlement). IsDue p vault_account y × IsFresh y.ticket_account ts)
      (ok_inj loaded s made)
      (
        record {
          vault = bytes_eq→eq ticket.vault vault_account (not-false _ vault);
          owner = bytes_eq→eq ticket.owner b.key (not-false _ owner);
          recipient = bytes_eq→eq ticket.recipient_token_account c.key (not-false _ recipient);
          shares = omega (arith, some_shares);
          address = address;
        },
        is_listed-IsFresh p a.key ts (fail_if_inv _ _ fresh),
      )

-- The loader of a settlement gives tickets of this vault only, at their own addresses, each with
-- shares to pay for, to the owner and the recipient that the ticket names; and no ticket twice.
pub load_settlements-AllDue :
    (p : Platform) (v : Vault) (vault_account : Key) (ts : List TicketSettlement)
    (accounts : List Account) {loaded : List TicketSettlement}
    → AllDue p vault_account ts
    → AllDistinct ts
    → load_settlements p v vault_account ts accounts ≡ ok loaded
    → AllDue p vault_account loaded × AllDistinct loaded
unfolding load_settlements
load_settlements-AllDue p v vault_account ts [] {loaded} due distinct h =
    subst (λ y. AllDue p vault_account y × AllDistinct y) (ok_inj ts loaded h) (due, distinct)
load_settlements-AllDue p v vault_account ts (a ∷ []) {loaded} due distinct h = absurd (cc)
load_settlements-AllDue p v vault_account ts (a ∷ b ∷ []) {loaded} due distinct h = absurd (cc)
load_settlements-AllDue p v vault_account ts (a ∷ b ∷ c ∷ rest) {loaded} due distinct h =
    let (s, one, more) = >>=-eq-ok (load_settlement p v vault_account ts a b c) _ h in
    let (is_due, fresh) = load_settlement-IsDue p v vault_account ts a b c one in
    load_settlements-AllDue p v vault_account (ts ++ (s ∷ [])) rest
      (AllDue-append p vault_account ts s due is_due) (AllDistinct-append ts s distinct fresh) more
