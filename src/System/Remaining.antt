-- ===== src/System/Remaining.antt =====
-- A list of open tickets of which some are closed: what remains of it.
use roshi.Common.{◌+◌, ◌≢◌, ◌≡◌, refl, sym, ◌∙◌, arith, Bool-cases, inl, inr, some, List, [], ◌∷◌}
use roshi.Common.Bytes.{Key, bytes_eq, bytes_eq→eq}
use roshi.Tickets.{WithdrawalTicket, find_ticket, remove_ticket}
use roshi.Redeem.Supply.{ticket_shares, ticket_shares-remove}
use roshi.Withdrawals.{TicketSettlement}
use roshi.Withdrawals.Conservation.{unstruck_shares}
use roshi.Accounts.Settlements.Distinct.{IsFresh, AllDistinct}
use roshi.System.{AllHeld}

-- Tickets that nobody has struck.
unfoldable pub AllUnstruck : List (Key × WithdrawalTicket) → Type 0
AllUnstruck [] = Unit {0}
AllUnstruck ((k, t) ∷ rest) = (t.assets_owed ≡ 0) × AllUnstruck rest

pub unstruck-remove :
    (key : Key) (ts : List (Key × WithdrawalTicket))
    → AllUnstruck ts
    → AllUnstruck (remove_ticket key ts)
unfolding AllUnstruck
unstruck-remove key [] all = tt
unstruck-remove key ((k, t) ∷ ts) all = elim (Bool-cases (bytes_eq k key)) [
  | inl same ↦ rw same all.1
  | inr other ↦ rw other (all.0, unstruck-remove key ts all.1)
]

pub unstruck-find :
    (key : Key) (ts : List (Key × WithdrawalTicket)) {t : WithdrawalTicket}
    → AllUnstruck ts
    → find_ticket key ts ≡ some t
    → t.assets_owed ≡ 0
unfolding AllUnstruck
unstruck-find key [] {t} all h = absurd (cc)
unstruck-find key ((k, u) ∷ ts) {t} all h = elim (Bool-cases (bytes_eq k key)) [
  | inl same ↦ let found : some u ≡ some t = rw same at h in ground (arith, found, all.0)
  | inr other ↦ unstruck-find key ts all.1 (rw other at h)
]

-- The removal of one ticket leaves the others to be found.
pub find-remove :
    (key other : Key) (ts : List (Key × WithdrawalTicket))
    → key ≢ other
    → find_ticket other (remove_ticket key ts) ≡ find_ticket other ts
find-remove key other [] different = refl
find-remove key other ((k, t) ∷ ts) different = elim (Bool-cases (bytes_eq k key)) [
  | inl same ↦ elim (Bool-cases (bytes_eq k other)) [
    | inl also ↦ absurd (different (sym (bytes_eq→eq k key same) ∙ bytes_eq→eq k other also))
    | inr no_other ↦ rw (same, no_other) refl
  ]
  | inr kept ↦ elim (Bool-cases (bytes_eq k other)) [
    | inl found ↦ rw (kept, found) refl
    | inr no_other ↦ rw (kept, no_other) (find-remove key other ts different)
  ]
]

pub AllHeld-remove :
    (key : Key) (ts : List (Key × WithdrawalTicket)) (due : List TicketSettlement)
    → IsFresh key due
    → AllHeld ts due
    → AllHeld (remove_ticket key ts) due
unfolding AllHeld IsFresh
AllHeld-remove key ts [] fresh held = tt
AllHeld-remove key ts (s ∷ due) fresh held = (
  find-remove key s.ticket_account ts (λ same. fresh.0 (sym same)) ∙ held.0,
  AllHeld-remove key ts due fresh.1 held.1,
)

-- The tickets that are left after those of some settlements are gone.
unfoldable pub remove_all :
    List TicketSettlement → List (Key × WithdrawalTicket) → List (Key × WithdrawalTicket)
remove_all [] ts = ts
remove_all (s ∷ due) ts = remove_all due (remove_ticket s.ticket_account ts)

-- Settlements of tickets that are held, each once, take all of their shares.
pub remove_all-shares :
    (due : List TicketSettlement) (ts : List (Key × WithdrawalTicket))
    → AllUnstruck ts
    → AllHeld ts due
    → AllDistinct due
    → ticket_shares (remove_all due ts) + unstruck_shares due ≡ ticket_shares ts
unfolding remove_all unstruck_shares AllHeld AllDistinct
remove_all-shares [] ts all held distinct = omega arith
remove_all-shares (s ∷ due) ts all held distinct =
    let open_ticket : s.ticket.assets_owed ≡ 0 = unstruck-find s.ticket_account ts all held.0 in
    let one = ticket_shares-remove s.ticket_account ts held.0 in
    let rest =
      remove_all-shares due (remove_ticket s.ticket_account ts)
        (unstruck-remove s.ticket_account ts all)
        (AllHeld-remove s.ticket_account ts due distinct.0 held.1) distinct.1 in
    rw open_ticket (omega (arith, one, rest))

pub unstruck-remove_all :
    (due : List TicketSettlement) (ts : List (Key × WithdrawalTicket))
    → AllUnstruck ts
    → AllUnstruck (remove_all due ts)
unfolding remove_all
unstruck-remove_all [] ts all = all
unstruck-remove_all (s ∷ due) ts all =
    unstruck-remove_all due (remove_ticket s.ticket_account ts)
      (unstruck-remove s.ticket_account ts all)
