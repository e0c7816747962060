-- ===== src/Client/Runner/Warned.antt =====
-- What a page that ends as a warning leaves of the state, its requests included.
use skopos.Schema.Doc.{Doc}
use skopos.Client.Platform.{Platform}
use skopos.Client.Scope.{Scope}
use skopos.Client.Wire.{Wire}
