-- ===== src/Base/Json.antt =====
-- JSON values, which the code annotates `Any`: metadata and attributes.
use Prim.Native.String.{String}
use mathlib.Core.Bool.{Bool, true, false, not}
use rootmem.Base.Tests.{◌==◌, string_eq}
use rootmem.Base.Float.{Float}

mutual
  pub data Json (F : Type 0) : Type 0 where
    null : Json F
    boolean : Bool → Json F
    number : F → Json F
    text : String → Json F
    array : Items F → Json F
    object : Fields F → Json F

  pub data Items (F : Type 0) : Type 0 where
    nil : Items F
    cons : Json F → Items F → Items F

  pub data Fields (F : Type 0) : Type 0 where
    end : Fields F
    field : String → Json F → Fields F → Fields F

-- `bool(value)`
unfoldable pub truthy : {F : Type 0} ⦃fl : Float F⦄ → Json F → Bool
truthy null = false
truthy (boolean b) = b
truthy ⦃fl⦄ (number x) = not (fl.eq x (fl.of_ℕ 0))
truthy (text s) = not (s == "")
truthy (array nil) = false
truthy (array (cons x xs)) = true
truthy (object end) = false
truthy (object (field k v fs)) = true
