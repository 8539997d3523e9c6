-- ===== src/TurnConfig/Merging.antt =====
-- apps/api/src/modules/turns/turns.service.ts: merging text events, which runs as they arrive.
use agent_waypoint.Common.{◌≡◌, sym, ap, ◌∙◌, List, [], ◌∷◌, ◌++◌, get_or}
use agent_waypoint.Common.Text.{Text}
use agent_waypoint.Common.Json.{Fields, get-put, read_string}
use agent_waypoint.TurnConfig.{TextField, text_of, carry_seq, merge_text}
use mathlib.Core.List.{append_assoc, append-nil}

-- The events of a burst, merged as they come.
unfoldable pub merge_all : TextField → Fields → List Fields → Fields
merge_all f existing [] = existing
merge_all f existing (e ∷ es) = merge_all f (merge_text f existing e) es

-- The texts of the events, one behind the other.
abbrev pub texts : TextField → List Fields → Text
texts f [] = []
texts f (e ∷ es) = text_of f e ++ texts f es

text_of-merge_text :
    (f : TextField) (existing later : Fields)
    → text_of f (merge_text f existing later) ≡ text_of f existing ++ text_of f later
unfolding merge_text read_string
text_of-merge_text TextField.text_field existing later =
    ap (λ v. get_or (read_string v) []) (get-put "text" "text" _ (carry_seq later existing))
text_of-merge_text TextField.delta_field existing later =
    ap (λ v. get_or (read_string v) []) (get-put "delta" "delta" _ (carry_seq later existing))
text_of-merge_text TextField.output_field existing later =
    ap (λ v. get_or (read_string v) []) (get-put "output" "output" _ (carry_seq later existing))

-- However many text events are merged into one, the one's text is theirs, one behind the other in the order in which
-- they came: none is lost and none is stored twice.
pub text_of-merge_all :
    (f : TextField) (existing : Fields) (es : List Fields)
    → text_of f (merge_all f existing es) ≡ text_of f existing ++ texts f es
unfolding merge_all
text_of-merge_all f existing [] = sym (append-nil (text_of f existing))
text_of-merge_all f existing (e ∷ es) =
    text_of-merge_all f (merge_text f existing e) es
    ∙ ap (λ t. t ++ texts f es) (text_of-merge_text f existing e)
    ∙ append_assoc (text_of f existing) (text_of f e) (texts f es)
