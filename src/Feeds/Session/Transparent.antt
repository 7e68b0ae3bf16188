-- ===== src/Feeds/Session/Transparent.antt =====
-- oracle_price.rs: the session only saves reads. Legs that name the same accounts show the same
-- data, since the runtime hands out one view of an account.
use roshi.Common.{
  ◌≡◌, refl, sym, ap, ◌∙◌, subst, Bool-cases, inl, inr, true, not, List, [], ◌∷◌, ◌++◌, Option,
  none, some, not-false, and_true,
}
use mathlib.Core.Path.{ap₂}
use roshi.Common.Result.{ok, ◌>>=◌, >>=-eq-ok, ok_inj, fail_if_inv, fail_if}
use roshi.Common.Error.{invalid_account_data}
use roshi.Common.Bytes.{Key, bytes_eq→eq}
use roshi.Math.{OraclePrice}
use roshi.Vault.{ProgramResult}
use roshi.Token.{Account}
use roshi.Feeds.Switchboard.{QuoteVerifier}
use roshi.Feeds.Session.Equality.{feeds_match→eq}
use roshi.Feeds.Session.{
  OracleLeg, Clock, read_leg, feeds_match, same_account_keys, VerifiedOracleLeg, OracleReadSession,
  find_reused, price_or_read, session_read,
}

-- The accounts of a leg are those that the runtime has under their keys.
unfoldable pub AllLoaded : (Key → Account) → List Account → Type 0
AllLoaded account [] = Unit {0}
AllLoaded account (a ∷ rest) = (a ≡ account a.key) × AllLoaded account rest

same_keys→eq :
    (account : Key → Account) (left right : List Account)
    → AllLoaded account left
    → AllLoaded account right
    → same_account_keys left right ≡ true
    → left ≡ right
unfolding same_account_keys AllLoaded
same_keys→eq account [] [] l r h = refl
same_keys→eq account [] (b ∷ right) l r h = absurd (cc)
same_keys→eq account (a ∷ left) [] l r h = absurd (cc)
same_keys→eq account (a ∷ left) (b ∷ right) l r h =
    let (first, others) = and_true _ _ h in
    let key = bytes_eq→eq a.key b.key first in
    ap₂ ◌∷◌ (l.0 ∙ ap account key ∙ sym r.0) (same_keys→eq account left right l.1 r.1 others)

module _ {OracleQuote : Type 0} (verifier : QuoteVerifier OracleQuote) (account : Key → Account)
    (clock : Clock) where
  -- The session holds what a direct read of its legs gives.
  unfoldable pub AllRead : List VerifiedOracleLeg → Type 0
  AllRead [] = Unit {0}
  AllRead (v ∷ rest) =
      (AllLoaded account v.leg.accounts × (read_leg verifier v.leg clock ≡ ok v.price))
      × AllRead rest

  AllRead-append :
      (session : List VerifiedOracleLeg) (v : VerifiedOracleLeg)
      → AllRead session
      → AllLoaded account v.leg.accounts
      → read_leg verifier v.leg clock ≡ ok v.price
      → AllRead (session ++ (v ∷ []))
  unfolding AllRead
  AllRead-append [] v all loaded read = ((loaded, read), tt)
  AllRead-append (x ∷ session) v all loaded read =
      (all.0, AllRead-append session v all.1 loaded read)

  -- What the loop has found so far: nothing, or the price of a direct read.
  Found : OracleLeg → Option OraclePrice → Type 0
  Found leg none = Unit {0}
  Found leg (some price) = read_leg verifier leg clock ≡ ok price

  find_reused-Found :
      (leg : OracleLeg) (session : List VerifiedOracleLeg) (reused : Option OraclePrice)
      {found : Option OraclePrice}
      → AllLoaded account leg.accounts
      → AllRead session
      → Found leg reused
      → find_reused leg session reused ≡ ok found
      → Found leg found
  unfolding find_reused AllRead Found
  find_reused-Found leg [] reused {found} loaded all so_far h =
      subst (Found leg) (ok_inj reused found h) so_far
  find_reused-Found leg (v ∷ rest) reused {found} loaded all so_far h =
      let (same, matched, h) = >>=-eq-ok (feeds_match leg.config v.leg.config) _ h in
      elim (Bool-cases same) [
        | inl is_same ↦
            let h = rw is_same at h in
            let matched = matched ∙ ap ok is_same in
            let (_, keys, h) =
              >>=-eq-ok
                (fail_if (not (same_account_keys leg.accounts v.leg.accounts)) invalid_account_data)
                _ h in
            let keys = not-false _ (fail_if_inv _ _ keys) in
            let config = feeds_match→eq leg.config v.leg.config matched in
            let accounts = same_keys→eq account leg.accounts v.leg.accounts loaded all.0.0 keys in
            let same_leg : leg ≡ v.leg = λ i. record { config = config i; accounts = accounts i } in
            let now = subst (λ y. read_leg verifier y clock ≡ ok v.price) (sym same_leg) all.0.1 in
            find_reused-Found leg rest (some v.price) loaded all.1 now h
        | inr differs ↦ find_reused-Found leg rest reused loaded all.1 so_far (rw differs at h)
      ]

  -- A read through the session gives the price of a direct read, and the session stays what it was:
  -- the prices of direct reads.
  pub session_read-AllRead :
      (session : OracleReadSession) (leg : OracleLeg) {price : OraclePrice}
      {after : OracleReadSession}
      → AllLoaded account leg.accounts
      → AllRead session
      → session_read verifier session leg clock ≡ ok (price, after)
      → (read_leg verifier leg clock ≡ ok price) × AllRead after
  unfolding session_read price_or_read Found
  session_read-AllRead session leg {price} {after} loaded all h =
      let (reused, found, h) = >>=-eq-ok (find_reused leg session none) _ h in
      let (p, read, made) = >>=-eq-ok (price_or_read verifier reused leg clock) _ h in
      let known = find_reused-Found leg session none loaded all tt found in
      let step = ok_inj _ (price, after) made in
      let direct = direct_price reused leg known read in
      let added = AllRead-append session (record { leg = leg; price = p }) all loaded direct in
      (direct ∙ ap ok (ap (λ x. x.0) step), subst AllRead (ap (λ x. x.1) step) added)
    where
      direct_price :
          (reused : Option OraclePrice) (leg : OracleLeg) {p : OraclePrice}
          → Found leg reused
          → price_or_read verifier reused leg clock ≡ ok p
          → read_leg verifier leg clock ≡ ok p
      direct_price (some price) leg {p} known read = known ∙ read
      direct_price none leg {p} known read = read

  -- The reads of one valuation, through a session and each on its own.
  unfoldable pub session_prices :
      OracleReadSession → List OracleLeg → ProgramResult (List OraclePrice)
  session_prices session [] = ok []
  session_prices session (leg ∷ legs) = do
    (price, after) ← session_read verifier session leg clock
    prices ← session_prices after legs
    ok (price ∷ prices)

  unfoldable pub direct_prices : List OracleLeg → ProgramResult (List OraclePrice)
  direct_prices [] = ok []
  direct_prices (leg ∷ legs) = do
    price ← read_leg verifier leg clock
    prices ← direct_prices legs
    ok (price ∷ prices)

  unfoldable pub AllLegsLoaded : List OracleLeg → Type 0
  AllLegsLoaded [] = Unit {0}
  AllLegsLoaded (leg ∷ legs) = AllLoaded account leg.accounts × AllLegsLoaded legs

  session_prices-AllRead :
      (session : OracleReadSession) (legs : List OracleLeg) {prices : List OraclePrice}
      → AllRead session
      → AllLegsLoaded legs
      → session_prices session legs ≡ ok prices
      → direct_prices legs ≡ ok prices
  unfolding session_prices direct_prices AllLegsLoaded
  session_prices-AllRead session [] {prices} all loaded h = h
  session_prices-AllRead session (leg ∷ legs) {prices} all loaded h =
      let ((price, after), read, h) = >>=-eq-ok (session_read verifier session leg clock) _ h in
      let (others, reads, made) = >>=-eq-ok (session_prices after legs) _ h in
      let (direct, still) = session_read-AllRead session leg loaded.0 all read in
      let rest = session_prices-AllRead after legs still loaded.1 reads in rw (direct, rest) made

  -- A valuation that reads its legs through one session, from an empty one on, gets exactly the
  -- prices that it would read for each leg on its own. The legs' accounts are those that the
  -- runtime has under their keys.
  pub session_prices-direct_prices :
      (legs : List OracleLeg) {prices : List OraclePrice}
      → AllLegsLoaded legs
      → session_prices [] legs ≡ ok prices
      → direct_prices legs ≡ ok prices
  unfolding AllRead
  session_prices-direct_prices legs loaded h = session_prices-AllRead [] legs tt loaded h
