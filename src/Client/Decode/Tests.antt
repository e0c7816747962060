-- ===== src/Client/Decode/Tests.antt =====
-- The chain of a document that decompresses.
use skopos.Base.{true, All}
use skopos.Client.Wire.{Reader}
use skopos.Client.Decode.{effective_decode, decode_chain}
use skopos.Client.Decode.Laws.{Runs, validate-chains}
use skopos.Client.Samples.{platform, wire, valid_doc, valid_doc-no_errors}

abbrev broken : Reader
broken = record { content = "page"; fails = true }

validate-chains_example :
    All (λ req. Runs (decode_chain wire (effective_decode req) broken)) valid_doc.requests
validate-chains_example =
    validate-chains wire platform.parse_duration wire.match_glob valid_doc broken
      valid_doc-no_errors
