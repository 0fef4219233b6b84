-- ===== src/Web/Revoked.antt =====
-- What a revocation leaves of an account's sessions.
use endbot.Prelude.{
  ◌≡◌, refl, sym, ap, subst, ◌∙◌, inl, inr, ℕ, true, some, List, [], ◌∷◌, String, ◌==◌, arith,
  find_first, find_first_holds, ok, ok_inj, Bool-cases,
}
use endbot.Web.Store.{
  Account, Session, WebStore, commit, commit_accounts, commit_sessions, after, account_for_xuid,
  put_account, of_account, not_of_account, is_empty, hashes, delete_sessions_of, delete_sessions,
  end_sessions_for_revoke,
}
use endbot.Web.Lifetimes.{after_gives}

commit_sessions_returned :
    (es : List Session) (s : WebStore) {u : Unit {0}}
    → (commit_sessions es s).1 ≡ ok u
    → (commit_sessions es s).0.sessions.entries ≡ es
unfolding commit_sessions commit
commit_sessions_returned es s h = ground arith

commit_accounts_returned :
    (es : List Account) (s : WebStore) {u : Unit {0}}
    → (commit_accounts es s).1 ≡ ok u
    → ((commit_accounts es s).0.accounts.entries ≡ es)
      × ((commit_accounts es s).0.sessions ≡ s.sessions)
unfolding commit_accounts commit
commit_accounts_returned es s h = (ground arith, refl)

find_first-put_account :
    (a a' : Account) (xuid : String) (es : List Account)
    → (a'.xuid == xuid) ≡ true
    → find_first (λ e. e.xuid == xuid) es ≡ some a
    → find_first (λ e. e.xuid == xuid) (put_account a' xuid es) ≡ some a'
find_first-put_account a a' xuid [] k h = absurd (cc)
find_first-put_account a a' xuid (e ∷ es) k h = elim (Bool-cases (e.xuid == xuid)) [
  | inl same ↦ rw (same, k) refl
  | inr other ↦ rw (other, other) (find_first-put_account a a' xuid es k (sym (rw other refl) ∙ h))
]

none_left : (id : String) (es : List Session) → of_account id (not_of_account id es) ≡ []
none_left id [] = refl
none_left id (e ∷ es) = ground (arith, none_left id es)

empty_list : {A : Type 0} (xs : List A) → is_empty xs ≡ true → xs ≡ []
empty_list [] h = refl
empty_list (x ∷ xs) h = absurd (cc)

delete_sessions_returned :
    (xuid : String) (a : Account) (s : WebStore) {removed : List String}
    → account_for_xuid xuid s ≡ some a
    → (delete_sessions xuid s).1 ≡ ok removed
    → of_account a.id (delete_sessions xuid s).0.sessions.entries ≡ []
unfolding delete_sessions delete_sessions_of
delete_sessions_returned xuid a s {removed} found h =
    elim (Bool-cases (is_empty (of_account a.id s.sessions.entries))) [
      | inl empty ↦ rw (delete_sessions, found, delete_sessions_of, empty) (empty_list _ empty)
      | inr some_left ↦
          let deleted : (after (commit_sessions (not_of_account a.id s.sessions.entries) s)
                λ s' _. (s', ok (hashes (of_account a.id s.sessions.entries)))).1
              ≡ ok removed =
            sym (rw (delete_sessions, found, delete_sessions_of, some_left) refl) ∙ h in
          let (s', _, committed, same, _) =
            after_gives (commit_sessions (not_of_account a.id s.sessions.entries) s)
              (λ x _. (x, ok (hashes (of_account a.id s.sessions.entries)))) deleted in
          rw (delete_sessions, found, delete_sessions_of, some_left)
            (subst (λ o. of_account a.id o.0.sessions.entries ≡ []) (sym same)
              (subst (λ o. of_account a.id o.0.sessions.entries ≡ []) committed
                (rw
                  (commit_sessions_returned (not_of_account a.id s.sessions.entries) s
                    (ap (λ o. o.1) committed))
                  (none_left a.id s.sessions.entries))))
    ]

-- If ending the sessions of an XUID that has an account returns, then no session of the account is
-- left, and the hashes that it tells are those of all the sessions that the account had.
pub end_sessions_for_revoke_returned :
    (xuid : String) (now : ℕ) (a : Account) (s : WebStore) (removed : List String)
    → account_for_xuid xuid s ≡ some a
    → (end_sessions_for_revoke xuid now s).1 ≡ ok removed
    → (of_account a.id (end_sessions_for_revoke xuid now s).0.sessions.entries ≡ [])
      × (removed ≡ hashes (of_account a.id s.sessions.entries))
unfolding end_sessions_for_revoke account_for_xuid
end_sessions_for_revoke_returned xuid now a s removed found h =
    elim (Bool-cases (is_empty (of_account a.id s.sessions.entries))) [
      | inl empty ↦
          let nothing = empty_list (of_account a.id s.sessions.entries) empty in
          let told : ok [] ≡ ok removed =
            sym (rw (end_sessions_for_revoke, found, empty) refl) ∙ h in
          (
            rw (end_sessions_for_revoke, found, empty) nothing,
            rw nothing (sym (ok_inj [] removed told)),
          )
      | inr some_left ↦
          let a' : Account = record a { sessions_from = some now } in
          let es = put_account a' xuid s.accounts.entries in
          let told = hashes (of_account a.id s.sessions.entries) in
          let ended : (after (commit_accounts es s)
                λ s1 _. after (delete_sessions xuid s1) λ s2 _. (s2, ok told)).1
              ≡ ok removed =
            sym (rw (end_sessions_for_revoke, found, some_left) refl) ∙ h in
          let (s1, _, committed, same1, rest) =
            after_gives (commit_accounts es s)
              (λ x _. after (delete_sessions xuid x) λ s2 _. (s2, ok told)) ended in
          let (s2, gone, deleted, same2, last) =
            after_gives (delete_sessions xuid s1) (λ x _. (x, ok told)) rest in
          let (written, _) = commit_accounts_returned es s (ap (λ o. o.1) committed) in
          let found' : account_for_xuid xuid s1 ≡ some a' =
            ap (λ o. find_first (λ e. e.xuid == xuid) o.0.accounts.entries) (sym committed)
            ∙ ap (find_first (λ e. e.xuid == xuid)) written
            ∙ find_first-put_account a a' xuid s.accounts.entries
                (find_first_holds (λ e. e.xuid == xuid) s.accounts.entries found) found in
          let left = delete_sessions_returned xuid a' s1 found' (ap (λ o. o.1) deleted) in
          (
            rw (end_sessions_for_revoke, found, some_left)
                (subst (λ o. of_account a.id o.0.sessions.entries ≡ []) (sym (same1 ∙ same2))
                  (subst (λ o. of_account a.id o.0.sessions.entries ≡ []) deleted left)),
            sym (ok_inj told removed last),
          )
    ]
