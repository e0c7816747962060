-- ===== src/Client/FanOut/Tests.antt =====
-- Fan-outs over two items.
use skopos.Base.{◌≡◌, refl, ◌++◌, none, pos, ok}
use skopos.Schema.Value.{literal_int, cons, end}
use skopos.Schema.Value as Schema
use skopos.Schema.Doc.{FanOut}
use skopos.Client.FanOut.{of_list, list, merged, run_fan_out}
use skopos.Client.Samples.{events, platform, env, doc, request, scope}

abbrev block : FanOut
block = record {
  over = Schema.list (cons (literal_int (pos 1)) (cons (literal_int (pos 2)) end));
  alias = "it";
  merge = "";
}

fans_out :
    (run_fan_out platform env doc request block scope).0
    ≡ ok (merged (list (of_list (events ++ events))) none)
unfolding run_fan_out
fans_out = refl
