-- ===== src/Client/Vision.antt =====
-- src/subllm/client_vision.py: `_validate_vision_messages`.
use subllm.Prelude.{
  ℕ, String, Bool, true, false, List, [], ◌∷◌, ◌++◌, ◌&&◌, ◌||◌, not, ◌==◌, Option, none, some,
  Result, ok, require, if◌then◌else◌, is_empty, ltb, eqb, codes, length, ◌>>◌,
}
use subllm.Dict.{Dict, lookup}
use subllm.Json.{Json, text, array, object, Items, nil, cons, members}
use subllm.Client.Outcome.{ClientError, completion}

abbrev pub Message : Type 0
Message = Dict Json

abbrev starts : List ℕ → List ℕ → Bool
starts [] ys = true
starts (x ∷ xs) [] = false
starts (x ∷ xs) (y ∷ ys) = eqb x y && starts xs ys

-- `s.startswith(prefix)`
abbrev starts_with : String → String → Bool
starts_with prefix s = starts (codes prefix) (codes s)

-- `str` of a document that is neither a text nor falsy, from outside, as a parameter
module _ (str_or_empty : Json → String) where
  -- `_image_url` of the part's `image_url`
  abbrev image_url : Option Json → String
  image_url (some (text s)) = s
  image_url (some (object fs)) = elim (lookup "url" (members fs)) [
    | none ↦ ""
    | some (text s) ↦ s
    | some j ↦ str_or_empty j
  ]
  image_url _ = ""

  abbrev is_image : Dict Json → Bool
  is_image part = elim (lookup "type" part) [ some (text s) ↦ s == "image_url" | _ ↦ false ]

  abbrev part_urls : Items → List String
  part_urls nil = []
  part_urls (cons (object fs) rest) =
      let urls = part_urls rest in
      if is_image (members fs) then image_url (lookup "image_url" (members fs)) ∷ urls else urls
  part_urls (cons _ rest) = part_urls rest

  abbrev message_urls : Message → List String
  message_urls m = elim (lookup "content" m) [ some (array parts) ↦ part_urls parts | _ ↦ [] ]

  -- `_iter_image_urls`
  abbrev image_urls : List Message → List String
  image_urls [] = []
  image_urls (m ∷ ms) = message_urls m ++ image_urls ms

  abbrev check_urls : List String → Result ClientError (Unit {0})
  check_urls [] = ok tt
  check_urls (url ∷ urls) =
      require (starts_with "data:image/" url || starts_with "https://" url)
        (completion "vision image_url must be an https or data:image URL" none)
      >> require (not (starts_with "data:image/" url && ltb 4_000_000 (length (codes url))))
          (completion "vision data URL exceeds the size limit" none)
      >> check_urls urls

  unfoldable pub validate_vision_messages : List Message → String → Result ClientError (Unit {0})
  validate_vision_messages messages modality =
      let urls = image_urls messages in
      require (is_empty urls || modality == "vision")
        (completion "image content requires a vision SubLLM route" none)
      >> (if modality == "vision"
          then require (not (is_empty urls))
              (completion "vision route requires at least one image_url part" none)
            >> check_urls urls
          else ok tt)
