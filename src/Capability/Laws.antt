-- ===== src/Capability/Laws.antt =====
-- What a signed address binds, and that it is accepted.
use Prim.Native.String
use threadmark.Capability.{
  DownloadGrant, file_url, DownloadDelivery, redirect, proxy, delivery_str, Signing, with_nul,
  message, signature, expiry, verify_file,
}
use threadmark.Capability.Decimal.{
  digit, one_char, decimal_from, decimal, code-digit, decimal-injective,
}
use threadmark.Config.{Config}
use threadmark.Model.{Actor}
use Prim.Native.Char.{Char, code, nul}
use text.Mathlib.TextLemmas.{nil-append, cons-append, head-eq_of_cons-eq, tail-eq_of_cons-eq}
use threadmark.Common.{
  Bool, true, false, none, [], ◌∷◌, some-eq-some, ℕ, zero, suc, ◌+◌, ◌/◌, ◌%◌, ◌^◌, ◌<◌, String,
  ◌≡◌, refl, sym, ap, ◌∙◌, inl, inr, some, arith, ◌==◌, eq_refl, ltb, leb, eqb, if◌then◌else◌,
  Bool-cases,
}

-- How often U+0000 occurs.
unfoldable pub nuls : String → ℕ
nuls String.[] = 0
nuls (String.◌∷◌ c s) = (if eqb (code c) 0 then 1 else 0) + nuls s

pub nuls-append : (s t : String) → nuls (String.◌++◌ s t) ≡ nuls s + nuls t
unfolding nuls
nuls-append String.[] t = ap nuls (nil-append t) ∙ omega arith
nuls-append (String.◌∷◌ c s) t =
    ap nuls (cons-append c s t) ∙ (let e = nuls-append s t in omega arith)

nuls-with_nul : (s t : String) → nuls (with_nul s t) ≡ nuls s + 1 + nuls t
unfolding nuls
nuls-with_nul s t = nuls-append s (String.◌∷◌ nul t) ∙ omega arith

-- Up to the first U+0000 a text says where its first field ends.
with_nul-injective :
    (s s' : String) {t t' : String}
    → nuls s ≡ 0
    → nuls s' ≡ 0
    → with_nul s t ≡ with_nul s' t'
    → (s ≡ s') × (t ≡ t')
unfolding nuls
with_nul-injective String.[] String.[] {t} {t'} h h' e = (
  refl,
  tail-eq_of_cons-eq (sym (nil-append (String.◌∷◌ nul t)) ∙ e ∙ nil-append (String.◌∷◌ nul t')),
)
with_nul-injective String.[] (String.◌∷◌ d s') {t} {t'} h h' e =
    let heads = ap code (
      head-eq_of_cons-eq
        (sym (nil-append (String.◌∷◌ nul t)) ∙ e ∙ cons-append d s' (String.◌∷◌ nul t'))) in
    absurd (ground arith)
with_nul-injective (String.◌∷◌ c s) String.[] {t} {t'} h h' e =
    let heads = ap code (
      head-eq_of_cons-eq
        (sym (cons-append c s (String.◌∷◌ nul t)) ∙ e ∙ nil-append (String.◌∷◌ nul t'))) in
    absurd (ground arith)
with_nul-injective (String.◌∷◌ c s) (String.◌∷◌ d s') {t} {t'} h h' e =
    let whole =
      sym (cons-append c s (String.◌∷◌ nul t)) ∙ e ∙ cons-append d s' (String.◌∷◌ nul t') in
    let (same, rest) =
      with_nul-injective s s' (omega arith) (omega arith) (tail-eq_of_cons-eq whole) in
    (cons_congr (head-eq_of_cons-eq whole) same, rest)
  where
    cons_congr : {a b : Char} {u v : String} → a ≡ b → u ≡ v → String.◌∷◌ a u ≡ String.◌∷◌ b v
    cons_congr p q = cc

nuls-digit : (d : ℕ) → d < 10 → nuls (one_char (digit d)) ≡ 0
unfolding nuls one_char
nuls-digit d h = let c = code-digit d h in ground arith

nuls-decimal_from : (fuel n : ℕ) → nuls (decimal_from fuel n) ≡ 0
unfolding nuls decimal_from
nuls-decimal_from zero n = refl
nuls-decimal_from (suc fuel) n = elim (Bool-cases (ltb n 10)) [
  | inl small ↦ rw small (nuls-digit n (ground arith))
  | inr large ↦ rw large (
      nuls-append (decimal_from fuel (n / 10)) (one_char (digit (n % 10)))
      ∙ (let e = nuls-decimal_from fuel (n / 10) in
          let e' = nuls-digit (n % 10) (omega arith) in omega arith))
]

nuls-decimal : (n : ℕ) → nuls (decimal n) ≡ 0
unfolding decimal
nuls-decimal n = nuls-decimal_from 20 n

nuls-delivery_str : (d : DownloadDelivery) → nuls (delivery_str d) ≡ 0
unfolding nuls delivery_str
nuls-delivery_str redirect = refl
nuls-delivery_str proxy = refl

delivery_str-injective : (d e : DownloadDelivery) → delivery_str d ≡ delivery_str e → d ≡ e
unfolding delivery_str
delivery_str-injective redirect redirect h = refl
delivery_str-injective redirect proxy h =
    absurd (let e = ap (λ t. t == "redirect") h in ground arith)
delivery_str-injective proxy redirect h =
    absurd (let e = ap (λ t. t == "redirect") h in ground arith)
delivery_str-injective proxy proxy h = refl

abbrev fields : Actor → String → ℕ
fields actor file_id = nuls actor.tenant_id + nuls actor.principal_id + nuls file_id

literal : nuls "threadmark.file.v2" ≡ 0
unfolding nuls
literal = refl

nuls-message :
    (actor : Actor) (file_id : String) (d : DownloadDelivery) (expires : ℕ)
    → nuls (message actor file_id d expires) ≡ 5 + fields actor file_id
unfolding message nuls
nuls-message actor file_id d expires =
    let last = with_nul (delivery_str d) (decimal expires) in
    let e₁ = nuls-with_nul (delivery_str d) (decimal expires) in
    let e₂ = nuls-with_nul file_id last in
    let e₃ = nuls-with_nul actor.principal_id (with_nul file_id last) in
    let e₄ = nuls-with_nul actor.tenant_id (with_nul actor.principal_id (with_nul file_id last)) in
    let e₅ =
      nuls-with_nul "threadmark.file.v2"
        (with_nul actor.tenant_id (with_nul actor.principal_id (with_nul file_id last))) in
    let e₆ = nuls-delivery_str d in let e₇ = nuls-decimal expires in let e₈ = literal in omega arith

-- The message of an address whose texts have no U+0000 is the message of no other address, whatever the
-- other one's texts are: owner, file, delivery and expiry are all bound.
pub message-injective :
    (actor other : Actor) (file_id other_id : String) (d e : DownloadDelivery) (x y : ℕ)
    → nuls actor.tenant_id + nuls actor.principal_id + nuls file_id ≡ 0
    → x < 2 ^ 64
    → y < 2 ^ 64
    → message actor file_id d x ≡ message other other_id e y
    → (actor ≡ other) × (file_id ≡ other_id) × (d ≡ e) × (x ≡ y)
unfolding message
message-injective actor other file_id other_id d e x y clean hx hy h =
    let total =
      sym (nuls-message actor file_id d x) ∙ ap nuls h ∙ nuls-message other other_id e y in
    let (_, h₁) = with_nul-injective "threadmark.file.v2" "threadmark.file.v2" literal literal h in
    let (tenant, h₂) =
      with_nul-injective actor.tenant_id other.tenant_id (omega arith) (omega arith) h₁ in
    let (owner, h₃) =
      with_nul-injective actor.principal_id other.principal_id (omega arith) (omega arith) h₂ in
    let (file, h₄) = with_nul-injective file_id other_id (omega arith) (omega arith) h₃ in
    let (delivery, h₅) =
      with_nul-injective (delivery_str d) (delivery_str e) (nuls-delivery_str d)
        (nuls-delivery_str e) h₄ in
    (
      Actor_ext tenant owner,
      file,
      delivery_str-injective d e delivery,
      decimal-injective x y hx hy h₅,
    )
  where
    Actor_ext : {a b : Actor} → a.tenant_id ≡ b.tenant_id → a.principal_id ≡ b.principal_id → a ≡ b
    Actor_ext p q = cc

granted_of :
    (b : Bool) (x : DownloadGrant) {g : DownloadGrant}
    → (if b then some x else none) ≡ some g
    → x ≡ g
granted_of true x h = some-eq-some h
granted_of false x h = absurd (ground arith)

module _ (signing : Signing) (config : Config) (actor : Actor) (file_id : String)
    (d : DownloadDelivery) (granted : ℕ)
    (decodes : (s : String) → signing.decode (signing.encode s) ≡ some s) where
  -- With Base64 that decodes what it encodes: where the sum of the clock and the configured lifetime fits in
  -- 64 bits, a granted address ends at that sum, and carries a signature that is accepted up to it, and at
  -- no later second.
  pub verify_file-file_url :
      (now : ℕ) {g : DownloadGrant}
      → granted + config.capability_ttl_seconds < 2 ^ 64
      → file_url signing config actor file_id d granted ≡ some g
      → let end = granted + config.capability_ttl_seconds in
        (g.expires_at ≡ end)
        × ((sig : String) × (g.url
              ≡ signing.url_of config.public_url (String.◌++◌ "/v1/downloads/files/" file_id) (
                  ("tenant", actor.tenant_id)
                  ∷ ("owner", actor.principal_id)
                  ∷ ("delivery", delivery_str d)
                  ∷ ("expires", decimal end)
                  ∷ ("signature", sig)
                  ∷ []))
            × (verify_file signing config actor file_id d end sig now ≡ leb now end))
  unfolding verify_file signature file_url
  verify_file-file_url now {g} fits h =
      let end : ℕ = granted + config.capability_ttl_seconds in
      let whole : expiry signing config granted ≡ end = omega arith in
      let text = signing.mac config.secret (message actor file_id d end) in
      let k = rw whole at h in
      let same = granted_of (signing.is_representable end) _ k in
      let decoded = decodes text in
      let equal = eq_refl text in
      rw (sym same) (refl, (signing.encode text, refl, rw (decoded, equal) (ground arith)))
