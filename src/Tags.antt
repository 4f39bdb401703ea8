-- ===== src/Tags.antt =====
-- The tags of a meter: an `std::unordered_map` from strings to strings, as a list in the order of the
-- insertions.
use atlas_system_agent.Base.{
  Bool, false, ◌||◌, [], ◌∷◌, ◌++◌, String, Text, codes, if◌then◌else◌, text_beq,
}
use atlas_system_agent.Metrics.{Tags}

abbrev same_key : String → String → Bool
same_key a b = text_beq (codes a) (codes b)

unfoldable pub has_tag : String → Tags → Bool
unfolding text_beq
has_tag k [] = false
has_tag k ((j, v) ∷ tags) = same_key j k || has_tag k tags

-- `tags.emplace(k, v)`: an entry that is there already stays.
unfoldable pub emplace_tag : String → Text → Tags → Tags
unfolding has_tag
emplace_tag k v tags = if has_tag k tags then tags else tags ++ (k, v) ∷ []

-- `tags.insert(more.begin(), more.end())`
unfoldable pub insert_tags : Tags → Tags → Tags
unfolding emplace_tag
insert_tags tags [] = tags
insert_tags tags ((k, v) ∷ more) = insert_tags (emplace_tag k v tags) more

-- `tags[k] = v`
unfoldable pub assign_tag : String → Text → Tags → Tags
unfolding text_beq
assign_tag k v [] = (k, v) ∷ []
assign_tag k v ((j, w) ∷ tags) =
    if same_key j k then (j, v) ∷ tags else (j, w) ∷ assign_tag k v tags
