-- ===== src/Netfault/Select.antt =====
-- core/src/netfault/mod.rs: the builder methods of `Selector`.
use redsuite.Prelude.{List, [], ◌∷◌, ◌++◌, some, String}
use redsuite.Netfault.{Selector, default_selector, http, ws, request, response, notification}

unfoldable pub methods : List String → Selector
methods names = record default_selector { methods = names }

unfoldable pub method : String → Selector
unfolding methods
method name = methods (name ∷ [])

unfoldable pub on_http : Selector → Selector
on_http s = record s { transport = some http }

unfoldable pub on_ws : Selector → Selector
on_ws s = record s { transport = some ws }

unfoldable pub at_request : Selector → Selector
at_request s = record s { stages = s.stages ++ request ∷ [] }

unfoldable pub at_response : Selector → Selector
at_response s = record s { stages = s.stages ++ response ∷ [] }

unfoldable pub at_notification : Selector → Selector
at_notification s = record s { stages = s.stages ++ notification ∷ [] }

unfoldable pub with_signature : Selector → String → Selector
with_signature s signature = record s { signature = some signature }

unfoldable pub with_account : Selector → String → Selector
with_account s account = record s { account = some account }
