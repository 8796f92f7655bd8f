-- ===== src/Api/ObjectsServed.antt =====
-- The requests of the functions of Api/Objects, and that the server has a route for each.
use mwdb_core.Common.{◌≡◌, refl, true, Option, ◌++◌, ℕ}
use mwdb_core.Common.Text.{Text, text, text_eq}
use mwdb_core.Api.Request.{Request, ObjectType, file, blob, config, object}
use mwdb_core.Api.Routes.{
  segments, IsPlain, IsHash64, IsInt, hash64-IsPlain, int-IsPlain, segments-slash, segments-end,
  part_matches, route_matches, serves,
}
use mwdb_core.Api.Table.{routes, is_served, served-at}
use mwdb_core.Api.Objects.{
  get_object, get_object_list, get_object_count, get_tags, get_share_info, get_object_tags,
  get_object_comments, get_object_relations, add_object_relation, remove_object_relation,
  get_object_shares, get_object_attributes, remove_object, add_object_tag, remove_object_tag,
  add_object_comment, remove_object_comment, add_object_attribute, remove_object_attribute,
  add_object_favorite, remove_object_favorite, share_object_with, add_quick_query,
  get_quick_queries, delete_quick_query, get_karton_analyses_list, get_karton_analysis_status,
  resubmit_karton_analysis, remove_karton_analysis_from_object, enable_sharing_3rd_party,
}

-- A request that a function sends, where each identifier in its path is one segment.
pub data ObjectCall : Request → Type 0 where
  get_object_call : (type : ObjectType) (id : Text) → IsHash64 id → ObjectCall (get_object type id)
  get_object_list_call :
      (type : ObjectType) (older_than : Text) (query : Text)
      → ObjectCall (get_object_list type older_than query)
  get_object_count_call :
      (type : ObjectType) (query : Text) → ObjectCall (get_object_count type query)
  get_tags_call : (query : Text) (count : ℕ) → ObjectCall (get_tags query count)
  get_share_info_call : ObjectCall get_share_info
  get_object_tags_call : (id : Text) → IsHash64 id → ObjectCall (get_object_tags id)
  get_object_comments_call : (id : Text) → IsHash64 id → ObjectCall (get_object_comments id)
  get_object_relations_call : (id : Text) → IsHash64 id → ObjectCall (get_object_relations id)
  add_object_relation_call :
      (parent : Text) (child : Text)
      → IsHash64 parent
      → IsHash64 child
      → ObjectCall (add_object_relation parent child)
  remove_object_relation_call :
      (parent : Text) (child : Text)
      → IsHash64 parent
      → IsHash64 child
      → ObjectCall (remove_object_relation parent child)
  get_object_shares_call : (id : Text) → IsHash64 id → ObjectCall (get_object_shares id)
  get_object_attributes_call : (id : Text) → IsHash64 id → ObjectCall (get_object_attributes id)
  remove_object_call : (id : Text) → IsHash64 id → ObjectCall (remove_object id)
  add_object_tag_call : (id : Text) (tag : Text) → IsHash64 id → ObjectCall (add_object_tag id tag)
  remove_object_tag_call :
      (id : Text) (tag : Text) → IsHash64 id → ObjectCall (remove_object_tag id tag)
  add_object_comment_call :
      (id : Text) (comment : Text) → IsHash64 id → ObjectCall (add_object_comment id comment)
  remove_object_comment_call :
      (id : Text) (comment_id : Text)
      → IsHash64 id
      → IsInt comment_id
      → ObjectCall (remove_object_comment id comment_id)
  add_object_attribute_call :
      (object_id : Text) (key : Text) (value : Text)
      → IsHash64 object_id
      → ObjectCall (add_object_attribute object_id key value)
  remove_object_attribute_call :
      (object_id : Text) (attribute_id : Text)
      → IsHash64 object_id
      → IsInt attribute_id
      → ObjectCall (remove_object_attribute object_id attribute_id)
  add_object_favorite_call : (id : Text) → IsHash64 id → ObjectCall (add_object_favorite id)
  remove_object_favorite_call : (id : Text) → IsHash64 id → ObjectCall (remove_object_favorite id)
  share_object_with_call :
      (id : Text) (group : Text) → IsHash64 id → ObjectCall (share_object_with id group)
  add_quick_query_call :
      (type : ObjectType) (name : Text) (query : Text)
      → ObjectCall (add_quick_query type name query)
  get_quick_queries_call : (type : ObjectType) → ObjectCall (get_quick_queries type)
  delete_quick_query_call : (id : Text) → IsInt id → ObjectCall (delete_quick_query id)
  get_karton_analyses_list_call :
      (id : Text) (older_than : Option Text)
      → IsHash64 id
      → ObjectCall (get_karton_analyses_list id older_than)
  get_karton_analysis_status_call :
      (id : Text) (analysis_id : Text)
      → IsHash64 id
      → IsPlain analysis_id
      → ObjectCall (get_karton_analysis_status id analysis_id)
  resubmit_karton_analysis_call :
      (id : Text) → IsHash64 id → ObjectCall (resubmit_karton_analysis id)
  remove_karton_analysis_from_object_call :
      (id : Text) (analysis_id : Text)
      → IsHash64 id
      → IsPlain analysis_id
      → ObjectCall (remove_karton_analysis_from_object id analysis_id)
  enable_sharing_3rd_party_call :
      (identifier : Text) → IsHash64 identifier → ObjectCall (enable_sharing_3rd_party identifier)

pub ObjectCall-is_served : {r : Request} → ObjectCall r → is_served r ≡ true
unfolding routes serves segments part_matches route_matches text_eq get_object get_object_list
    get_object_count get_tags get_share_info get_object_tags get_object_comments
    get_object_relations add_object_relation remove_object_relation get_object_shares
    get_object_attributes remove_object add_object_tag remove_object_tag add_object_comment
    remove_object_comment add_object_attribute remove_object_attribute add_object_favorite
    remove_object_favorite share_object_with add_quick_query get_quick_queries delete_quick_query
    get_karton_analyses_list get_karton_analysis_status resubmit_karton_analysis
    remove_karton_analysis_from_object enable_sharing_3rd_party
ObjectCall-is_served (get_object_call file id h0) =
    served-at 28 _ _ refl (rw (segments-end id (hash64-IsPlain h0)) (rw h0.accepted refl))
ObjectCall-is_served (get_object_call blob id h0) =
    served-at 35 _ _ refl (rw (segments-end id (hash64-IsPlain h0)) (rw h0.accepted refl))
ObjectCall-is_served (get_object_call config id h0) =
    served-at 33 _ _ refl (rw (segments-end id (hash64-IsPlain h0)) (rw h0.accepted refl))
ObjectCall-is_served (get_object_call object id h0) =
    served-at 15 _ _ refl (rw (segments-end id (hash64-IsPlain h0)) (rw h0.accepted refl))
ObjectCall-is_served (get_object_list_call file older_than query) = served-at 27 _ _ refl refl
ObjectCall-is_served (get_object_list_call blob older_than query) = served-at 34 _ _ refl refl
ObjectCall-is_served (get_object_list_call config older_than query) = served-at 31 _ _ refl refl
ObjectCall-is_served (get_object_list_call object older_than query) = served-at 14 _ _ refl refl
ObjectCall-is_served (get_object_count_call file query) = served-at 18 _ _ refl refl
ObjectCall-is_served (get_object_count_call blob query) = served-at 18 _ _ refl refl
ObjectCall-is_served (get_object_count_call config query) = served-at 18 _ _ refl refl
ObjectCall-is_served (get_object_count_call object query) = served-at 18 _ _ refl refl
ObjectCall-is_served (get_tags_call query count) = served-at 19 _ _ refl refl
ObjectCall-is_served get_share_info_call = served-at 24 _ _ refl refl
ObjectCall-is_served (get_object_tags_call id h0) =
    served-at 20 _ _ refl
      (rw (segments-slash id (text "tag") (hash64-IsPlain h0)) (rw h0.accepted refl))
ObjectCall-is_served (get_object_comments_call id h0) =
    served-at 21 _ _ refl
      (rw (segments-slash id (text "comment") (hash64-IsPlain h0)) (rw h0.accepted refl))
ObjectCall-is_served (get_object_relations_call id h0) =
    served-at 25 _ _ refl
      (rw (segments-slash id (text "relations") (hash64-IsPlain h0)) (rw h0.accepted refl))
ObjectCall-is_served (add_object_relation_call parent child h0 h1) = served-at 26 _ _ refl (
    rw (segments-slash parent (text "child/" ++ child) (hash64-IsPlain h0))
      (rw (segments-end child (hash64-IsPlain h1)) (rw h0.accepted (rw h1.accepted refl))))
ObjectCall-is_served (remove_object_relation_call parent child h0 h1) = served-at 26 _ _ refl (
    rw (segments-slash parent (text "child/" ++ child) (hash64-IsPlain h0))
      (rw (segments-end child (hash64-IsPlain h1)) (rw h0.accepted (rw h1.accepted refl))))
ObjectCall-is_served (get_object_shares_call id h0) =
    served-at 23 _ _ refl
      (rw (segments-slash id (text "share") (hash64-IsPlain h0)) (rw h0.accepted refl))
ObjectCall-is_served (get_object_attributes_call id h0) =
    served-at 41 _ _ refl
      (rw (segments-slash id (text "attribute") (hash64-IsPlain h0)) (rw h0.accepted refl))
ObjectCall-is_served (remove_object_call id h0) =
    served-at 15 _ _ refl (rw (segments-end id (hash64-IsPlain h0)) (rw h0.accepted refl))
ObjectCall-is_served (add_object_tag_call id tag h0) =
    served-at 20 _ _ refl
      (rw (segments-slash id (text "tag") (hash64-IsPlain h0)) (rw h0.accepted refl))
ObjectCall-is_served (remove_object_tag_call id tag h0) =
    served-at 20 _ _ refl
      (rw (segments-slash id (text "tag") (hash64-IsPlain h0)) (rw h0.accepted refl))
ObjectCall-is_served (add_object_comment_call id comment h0) =
    served-at 21 _ _ refl
      (rw (segments-slash id (text "comment") (hash64-IsPlain h0)) (rw h0.accepted refl))
ObjectCall-is_served (remove_object_comment_call id comment_id h0 h1) = served-at 22 _ _ refl (
    rw (segments-slash id (text "comment/" ++ comment_id) (hash64-IsPlain h0))
      (rw (segments-end comment_id (int-IsPlain h1)) (rw h0.accepted (rw h1.accepted refl))))
ObjectCall-is_served (add_object_attribute_call object_id key value h0) =
    served-at 41 _ _ refl
      (rw (segments-slash object_id (text "attribute") (hash64-IsPlain h0)) (rw h0.accepted refl))
ObjectCall-is_served (remove_object_attribute_call object_id attribute_id h0 h1) =
    served-at 42 _ _ refl (
      rw (segments-slash object_id (text "attribute/" ++ attribute_id) (hash64-IsPlain h0))
        (rw (segments-end attribute_id (int-IsPlain h1)) (rw h0.accepted (rw h1.accepted refl))))
ObjectCall-is_served (add_object_favorite_call id h0) =
    served-at 16 _ _ refl
      (rw (segments-slash id (text "favorite") (hash64-IsPlain h0)) (rw h0.accepted refl))
ObjectCall-is_served (remove_object_favorite_call id h0) =
    served-at 16 _ _ refl
      (rw (segments-slash id (text "favorite") (hash64-IsPlain h0)) (rw h0.accepted refl))
ObjectCall-is_served (share_object_with_call id group h0) =
    served-at 23 _ _ refl
      (rw (segments-slash id (text "share") (hash64-IsPlain h0)) (rw h0.accepted refl))
ObjectCall-is_served (add_quick_query_call file name query) = served-at 39 _ _ refl refl
ObjectCall-is_served (add_quick_query_call blob name query) = served-at 39 _ _ refl refl
ObjectCall-is_served (add_quick_query_call config name query) = served-at 39 _ _ refl refl
ObjectCall-is_served (add_quick_query_call object name query) = served-at 39 _ _ refl refl
ObjectCall-is_served (get_quick_queries_call file) = served-at 39 _ _ refl refl
ObjectCall-is_served (get_quick_queries_call blob) = served-at 39 _ _ refl refl
ObjectCall-is_served (get_quick_queries_call config) = served-at 39 _ _ refl refl
ObjectCall-is_served (get_quick_queries_call object) = served-at 39 _ _ refl refl
ObjectCall-is_served (delete_quick_query_call id h0) =
    served-at 40 _ _ refl (rw (segments-end id (int-IsPlain h0)) (rw h0.accepted refl))
ObjectCall-is_served (get_karton_analyses_list_call id older_than h0) =
    served-at 51 _ _ refl
      (rw (segments-slash id (text "karton") (hash64-IsPlain h0)) (rw h0.accepted refl))
ObjectCall-is_served (get_karton_analysis_status_call id analysis_id h0 h1) =
    served-at 52 _ _ refl (
      rw (segments-slash id (text "karton/" ++ analysis_id) (hash64-IsPlain h0))
        (rw (segments-end analysis_id h1) (rw h0.accepted (rw h1.filled refl))))
ObjectCall-is_served (resubmit_karton_analysis_call id h0) =
    served-at 51 _ _ refl
      (rw (segments-slash id (text "karton") (hash64-IsPlain h0)) (rw h0.accepted refl))
ObjectCall-is_served (remove_karton_analysis_from_object_call id analysis_id h0 h1) =
    served-at 52 _ _ refl (
      rw (segments-slash id (text "karton/" ++ analysis_id) (hash64-IsPlain h0))
        (rw (segments-end analysis_id h1) (rw h0.accepted (rw h1.filled refl))))
ObjectCall-is_served (enable_sharing_3rd_party_call identifier h0) = served-at 17 _ _ refl (
    rw (segments-slash identifier (text "share_3rd_party") (hash64-IsPlain h0))
      (rw h0.accepted refl))
