-- ===== src/HashLog/Links.antt =====
-- What `verify_hash_chain` of services/layer1_hashlog/hash_chain.py accepts, said of the entries of a file and
-- of the neighbours among them.
use mathlib.Core.Path.{subst}
use algo_trading_platform.Base.{
  ◌≡◌, ◌↔◌, refl, sym, ap, ◌∙◌, true, Option, none, some, List, [], ◌∷◌, ◌++◌, All,
}
use algo_trading_platform.Base.Dict.{Eq}
use algo_trading_platform.HashLog.{
  TickBody, HashChainEntry, LogLine, logged, white, invalid, incomplete,
}
use algo_trading_platform.HashLog.Verify.{
  verify_hash_chain, is_ok, follows, IsChain, IsChain-accepted, accepted-IsChain,
}

module _ {H F : Type 0} where
  -- The entries of the file, in its order.
  abbrev entries : List (LogLine H F) → List (HashChainEntry H F)
  entries [] = []
  entries (logged e ∷ lines) = e ∷ entries lines
  entries (_ ∷ lines) = entries lines

  -- The line holds an entry or nothing.
  abbrev IsReadable : LogLine H F → Type 0
  IsReadable invalid = ⊥
  IsReadable incomplete = ⊥
  IsReadable _ = Unit

module _ {H F : Type 0} ⦃eq : Eq H⦄ (digest : TickBody H F → H) where
  -- No line is unreadable, each entry has the hash of its body, the first names the expected hash, if any,
  -- and each entry names the hash of the one right before it.
  pub record IsSound (prev : Option H) (lines : List (LogLine H F)) : Type 0 where
    pub readable : All IsReadable lines
    pub hashed : All (λ e. e.tick_hash ≡ digest e.body) (entries lines)
    pub first :
        (h : H) (e : HashChainEntry H F) (es : List (HashChainEntry H F))
        → prev ≡ some h
        → entries lines ≡ e ∷ es
        → e.body.previous_hash ≡ h
    pub linked :
        (before after : List (HashChainEntry H F)) (a b : HashChainEntry H F)
        → entries lines ≡ before ++ a ∷ b ∷ after
        → b.body.previous_hash ≡ a.tick_hash

  IsChain-AreReadable :
      (prev : Option H) (lines : List (LogLine H F))
      → IsChain digest prev lines
      → All IsReadable lines × All (λ e. e.tick_hash ≡ digest e.body) (entries lines)
  IsChain-AreReadable prev [] c = (tt, tt)
  IsChain-AreReadable prev (white ∷ lines) c =
      let (r, h) = IsChain-AreReadable prev lines c in ((tt, r), h)
  IsChain-AreReadable prev (invalid ∷ lines) c = elim c [ ]
  IsChain-AreReadable prev (incomplete ∷ lines) c = elim c [ ]
  IsChain-AreReadable prev (logged e ∷ lines) (p, q, c) =
      let (r, h) = IsChain-AreReadable (some e.tick_hash) lines c in ((tt, r), (q, h))

  IsChain-first :
      (h : H) (lines : List (LogLine H F))
      → IsChain digest (some h) lines
      → (e : HashChainEntry H F) (es : List (HashChainEntry H F)) → entries lines ≡ e ∷ es
      → e.body.previous_hash ≡ h
  IsChain-first h [] c e es s = absurd cc
  IsChain-first h (white ∷ lines) c e es s = IsChain-first h lines c e es s
  IsChain-first h (invalid ∷ lines) c e es s = elim c [ ]
  IsChain-first h (incomplete ∷ lines) c e es s = elim c [ ]
  IsChain-first h (logged x ∷ lines) (p, q, c) e es s =
      let same : x ≡ e = cc in
      sym (ap (λ y. y.body.previous_hash) same) ∙ (eq.beq_iff x.body.previous_hash h).0 p

  IsChain-linked :
      (prev : Option H) (lines : List (LogLine H F))
      → IsChain digest prev lines
      → (before after : List (HashChainEntry H F)) (a b : HashChainEntry H F)
      → entries lines ≡ before ++ a ∷ b ∷ after
      → b.body.previous_hash ≡ a.tick_hash
  IsChain-linked prev [] c [] after a b s = absurd cc
  IsChain-linked prev [] c (x ∷ before) after a b s = absurd cc
  IsChain-linked prev (white ∷ lines) c before after a b s =
      IsChain-linked prev lines c before after a b s
  IsChain-linked prev (invalid ∷ lines) c before after a b s = elim c [ ]
  IsChain-linked prev (incomplete ∷ lines) c before after a b s = elim c [ ]
  IsChain-linked prev (logged e ∷ lines) (p, q, c) [] after a b s =
      let same : e ≡ a = cc in
      IsChain-first e.tick_hash lines c b after (cc) ∙ ap (λ y. y.tick_hash) same
  IsChain-linked prev (logged e ∷ lines) (p, q, c) (x ∷ before) after a b s =
      IsChain-linked (some e.tick_hash) lines c before after a b (cc)

  IsChain-IsSound :
      (prev : Option H) (lines : List (LogLine H F))
      → IsChain digest prev lines
      → IsSound prev lines
  IsChain-IsSound prev lines c = record {
    readable = (IsChain-AreReadable prev lines c).0;
    hashed = (IsChain-AreReadable prev lines c).1;
    first = λ h e es named s.
        IsChain-first h lines (subst (λ o. IsChain digest o lines) named c) e es s;
    linked = IsChain-linked prev lines c;
  }

  -- The entry at the head names the expected hash.
  follows_first :
      (prev : Option H) (e : HashChainEntry H F)
      → ((h : H) → prev ≡ some h → e.body.previous_hash ≡ h)
      → follows digest prev e ≡ true
  follows_first none e f = refl
  follows_first (some h) e f = (eq.beq_iff e.body.previous_hash h).1 (f h refl)

  IsSound-IsChain :
      (prev : Option H) (lines : List (LogLine H F))
      → IsSound prev lines
      → IsChain digest prev lines
  IsSound-IsChain prev [] s = tt
  IsSound-IsChain prev (white ∷ lines) s =
      IsSound-IsChain prev lines
        (record { readable = s.readable.1; hashed = s.hashed; first = s.first; linked = s.linked })
  IsSound-IsChain prev (invalid ∷ lines) s = elim s.readable.0 [ ]
  IsSound-IsChain prev (incomplete ∷ lines) s = elim s.readable.0 [ ]
  IsSound-IsChain prev (logged e ∷ lines) s = (
    follows_first prev e (λ h named. s.first h e (entries lines) named refl),
    s.hashed.0,
    IsSound-IsChain (some e.tick_hash) lines (record {
      readable = s.readable.1;
      hashed = s.hashed.1;
      first = λ h b es named t.
          let same : e.tick_hash ≡ h = cc in s.linked [] es e b (ap (λ r. e ∷ r) t) ∙ same;
      linked = λ before after a b t. s.linked (e ∷ before) after a b (ap (λ r. e ∷ r) t);
    }),
  )

  -- The verifier accepts a file, with or without a hash expected for its first entry, exactly when every
  -- line is an entry or blank, each entry has the hash of its body, the first entry names the expected hash,
  -- and of any two entries with no other between them the second names the hash of the first.
  pub verify_hash_chain_iff :
      (prev : Option H) (lines : List (LogLine H F))
      → (is_ok (verify_hash_chain digest none 1 0 prev lines) ≡ true) ↔ IsSound prev lines
  verify_hash_chain_iff prev lines = (
    (λ ok. IsChain-IsSound prev lines (accepted-IsChain digest 1 0 prev lines ok)),
    (λ s. IsChain-accepted digest none 1 0 prev lines (IsSound-IsChain prev lines s)),
  )
