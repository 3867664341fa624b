-- ===== src/Engine/Map/Ends.antt =====
-- How a map without a reduce clause ends (engine/map.go, runMap behind wg.Wait).
use awf.Prelude.{◌≡◌, Bytes, List, Option, String, ok}
use awf.Engine.Map.{FloatProducts, Frontier, settle_frontier}
use awf.Engine.Walk.{World, Disk, Fault}
use awf.Template.Value.{Floats}

module _ {F : Type 0} (fl : Floats F) (fp : FloatProducts F) (text : Fault → Bytes) (disk : Disk)
    (others : World → World) (map_path : Bytes) where
  -- The frontier settles to these statuses: none was asked for, or its event is on disk.
  abbrev pub Settles : Option Frontier → List String → World → List String → Type 0
  Settles frontier statuses w finals =
      (w' : World) × (settle_frontier text disk others map_path frontier statuses w
        ≡ ok (w', finals))
