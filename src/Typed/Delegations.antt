-- ===== src/Typed/Delegations.antt =====
-- The delegations of an IISS transaction: what WriteIISSTX of core/db_iissdata.go encodes of them,
-- and what NewIScoreAccountFromIISS of core/db_account.go decodes. An address is its 21 bytes.
use rewardcalculator.Base.{
  ℕ, ◌≡◌, refl, ap, ◌∙◌, Option, none, some, List, [], ◌∷◌, All, replicate, length,
}
use rewardcalculator.Base.Int.{ℤ, pos}
use rewardcalculator.Base.Bytes.{Bytes}
use rewardcalculator.Address.RoundTrip.{IsAddress}
use rewardcalculator.Typed.{
  Custom, address, hex_int, uint64, TypedObj, Any, nil, list, custom, Items, empty, item, Decoded,
  ok, fails, panics, encode_any, decode_any,
}
use rewardcalculator.Typed.RoundTrip.{
  IsPlain, ArePlain, with_hex_ints, items_with_hex_ints, decode_any-encode_any,
}

-- PRepDelegationInfo as WriteIISSTX takes it: the amount is a uint64 there.
pub record Delegation : Type 0 where
  pub to : Bytes
  pub amount : ℕ

abbrev pub append : Items → Items → Items
append empty m = m
append (item a l) m = item a (append l m)

-- The loop over the delegations. `dgData` is declared outside of it, so it grows with each.
unfoldable pub delegation_items : Items → List Delegation → Items
delegation_items dg_data [] = empty
delegation_items dg_data (d ∷ rest) =
    let dg_data' =
      append dg_data (item (custom (address d.to)) (item (custom (uint64 d.amount)) empty)) in
    item (list dg_data') (delegation_items dg_data' rest)

-- The `Data` of a TXDataTypeDelegate.
unfoldable pub delegate_data : List Delegation → Option TypedObj
unfolding delegation_items encode_any
delegate_data delegations = encode_any (list (delegation_items empty delegations))

pub record Parsed : Type 0 where
  pub to : Bytes
  pub amount : ℤ

-- `switch v2.(type)`
abbrev pub set_custom : Custom → Parsed → Parsed
set_custom (address a) p = record p { to = a }
set_custom (hex_int i) p = record p { amount = i }
set_custom c p = p

abbrev pub set_part : Any → Parsed → Parsed
set_part (custom c) p = set_custom c p
set_part a p = p

-- A list of two; one of another length is skipped, which leaves a nil pointer.
unfoldable pub parse_pair : Items → Option Parsed
parse_pair (item a (item b empty)) =
    some (set_part b (set_part a (record { to = replicate 21 0; amount = pos 0 })))
parse_pair l = none

abbrev pub and_parsed :
    Option Parsed → Option (List (Option Parsed)) → Option (List (Option Parsed))
and_parsed p none = none
and_parsed p (some l) = some (p ∷ l)

-- `none` where the whole account is nil, for an element that is no list.
unfoldable pub parse_items : Items → Option (List (Option Parsed))
unfolding parse_pair
parse_items empty = some []
parse_items (item (list pair) l) = and_parsed (parse_pair pair) (parse_items l)
parse_items (item a l) = none

-- The delegations of the account: what is no list has none.
unfoldable pub parse_delegations : Any → Option (List (Option Parsed))
unfolding parse_items
parse_delegations (list l) = parse_items l
parse_delegations a = some []

-- The error of DecodeAny is not looked at, and leaves nil.
abbrev pub decoded_or_nil : Decoded Any → Option Any
decoded_or_nil (ok a) = some a
decoded_or_nil fails = some nil
decoded_or_nil panics = none

abbrev pub parse_decoded : Option Any → Option (List (Option Parsed))
parse_decoded none = none
parse_decoded (some a) = parse_delegations a

-- NewIScoreAccountFromIISS of a TXDataTypeDelegate; `none` where it gives nil or panics.
unfoldable pub delegations_from_iiss : TypedObj → Option (List (Option Parsed))
unfolding parse_delegations decode_any
delegations_from_iiss o = parse_decoded (decoded_or_nil (decode_any o))

abbrev pub parsed : Delegation → Parsed
parsed d = record { to = d.to; amount = pos d.amount }

-- What is read back: the first delegation, and nil pointers for all others.
abbrev pub first_only : List Delegation → List (Option Parsed)
first_only [] = []
first_only (d ∷ rest) = some (parsed d) ∷ replicate (length rest) none

plain-append : (l m : Items) → ArePlain l → ArePlain m → ArePlain (append l m)
unfolding IsPlain
plain-append empty m h h' = h'
plain-append (item a l) m h h' = (h.0, plain-append l m h.1 h')

delegation_items-ArePlain :
    (dg_data : Items) (l : List Delegation)
    → ArePlain dg_data
    → All (λ (d : Delegation). IsAddress d.to) l
    → ArePlain (delegation_items dg_data l)
unfolding delegation_items IsPlain
delegation_items-ArePlain dg_data [] h addrs = tt
delegation_items-ArePlain dg_data (d ∷ rest) h addrs =
    let more = plain-append dg_data _ h (addrs.0, (tt, tt)) in
    (more, delegation_items-ArePlain _ rest more addrs.1)

-- At least one pair in front of a pair is no pair.
longer :
    (a b : Any) (l : Items) (c d : Any)
    → parse_pair (items_with_hex_ints (append (item a (item b l)) (item c (item d empty)))) ≡ none
unfolding parse_pair with_hex_ints
longer a b empty c d = refl
longer a b (item x l) c d = refl

others :
    (a b : Any) (l : Items) (rest : List Delegation)
    → parse_items (items_with_hex_ints (delegation_items (item a (item b l)) rest))
      ≡ some (replicate (length rest) none)
unfolding parse_items delegation_items with_hex_ints
others a b l [] = refl
others a b l (d ∷ rest) = rw (longer a b l _ _, others a b (append l _) rest) refl

read_back :
    (l : List Delegation)
    → parse_items (items_with_hex_ints (delegation_items empty l)) ≡ some (first_only l)
unfolding parse_items delegation_items with_hex_ints parse_pair
read_back [] = refl
read_back (d ∷ rest) =
    rw (others (custom (address d.to)) (custom (uint64 d.amount)) empty rest) refl

-- The delegations that WriteIISSTX writes, to addresses of 21 bytes of which the first is 0 or 1, are
-- encoded without an error; NewIScoreAccountFromIISS reads the first of them back, and a nil pointer
-- for every other.
pub delegations_from_iiss-delegate_data :
    (l : List Delegation)
    → All (λ (d : Delegation). IsAddress d.to) l
    → (o : TypedObj) × (delegate_data l ≡ some o) × (delegations_from_iiss o ≡ some (first_only l))
unfolding delegate_data delegations_from_iiss parse_delegations IsPlain with_hex_ints
delegations_from_iiss-delegate_data l addresses =
    let encoded =
      decode_any-encode_any (list (delegation_items empty l))
        (delegation_items-ArePlain empty l tt addresses) in
    (
      encoded.result,
      encoded.is,
      ap (λ r. parse_decoded (decoded_or_nil r)) encoded.decodes ∙ read_back l,
    )
