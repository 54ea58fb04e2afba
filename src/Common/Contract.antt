-- ===== src/Common/Contract.antt =====
-- The texts of the scenario catalog (cks_simulator/scenarios.py): contract and handler identifiers,
-- and `str.zfill`.
use Prim.Native.Char.{code}
use Prim.Native.String.{String}
use Prim.Native.Nat.{ℕ}
use mathlib.Core.Path.{◌≡◌, refl}
use mathlib.Core.Bool.{Bool, true, false, not, ◌&&◌, ◌||◌}
use mathlib.Core.List.{List, [], ◌∷◌}
use cks_simulator.Common.Tests.{◌==◌, if◌then◌else◌}
use cks_simulator.Common.Text.{codes, is_lower, is_digit, is_handler_of, ◌+++◌}

-- `(?:[.-][a-z0-9]+)*$` behind a word of `[a-z0-9]`; `fresh` says that no letter of the present
-- word was read.
contract_tail : Bool → List ℕ → Bool
unfolding is_lower is_digit
contract_tail fresh [] = not fresh
contract_tail fresh (c ∷ cs) =
    let after_separator = contract_tail true cs in
    let after_letter = contract_tail false cs in
    if is_lower c || is_digit c
    then after_letter
    else if (c == b'-' || c == b'.') && not fresh
    then after_separator
    else false

-- `^[a-z0-9]+(?:[.-][a-z0-9]+)*$`
unfoldable pub is_contract_id : String → Bool
unfolding contract_tail
is_contract_id s = contract_tail true (codes s)

-- `^full\.s(?:0[1-9]|1[0-7])\.v[1-9][0-9]*$`: the handler of one of the given scenarios.
unfoldable pub is_handler_id : List String → String → Bool
unfolding is_handler_of
is_handler_id [] handler = false
is_handler_id (scenario_id ∷ ids) handler =
    is_handler_of scenario_id handler || is_handler_id ids handler

-- `value.zfill(2)`: a sign stays in front of the zero.
unfoldable pub zfill_two : String → String
zfill_two String.[] = "00"
zfill_two (String.◌∷◌ c String.[]) =
    if code c == b'-' || code c == b'+' then String.◌∷◌ c "0" else "0" +++ String.◌∷◌ c String.[]
zfill_two s = s

contract_accepts : is_contract_id "node-cis.v1" ≡ true
unfolding is_contract_id
contract_accepts = refl

contract_rejects : is_contract_id "node..cis" ≡ false
unfolding is_contract_id
contract_rejects = refl

handler_form : is_handler_id ("01" ∷ "17" ∷ []) "full.s17.v3" ≡ true
unfolding is_handler_id is_handler_of
handler_form = refl

zfill_pads : zfill_two "7" ≡ "07"
unfolding zfill_two ◌+++◌
zfill_pads = refl
