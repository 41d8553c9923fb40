-- ===== src/Api/Routes/Answers.antt =====
-- What the routes that `define_api` of src/availability.rs registers answer on the data source of
-- src/data_source/fs.rs.
use Prim.Native.String.{String}
use hotshot_query_service.Prelude.{
  ℕ, Option, some, List, [], ◌∷◌, map, ok, map_err, get_elem?, ◌≡◌, refl, ◌∙◌, Result-cases, inl,
  inr, ap, fun_ext,
}
use hotshot_query_service.NodeTypes.{NodeTypes}
use hotshot_query_service.AppendLog.{AppendLogLaws}
use hotshot_query_service.LedgerLog.Contents.{IsSound}
use hotshot_query_service.LedgerLog.Reads.{IsSettled}
use hotshot_query_service.LedgerLog.Defs.{received}
use hotshot_query_service.Availability.QueryData.{BlockQueryData}
use hotshot_query_service.FileSystem.Defs.{Storage, FileSystemDataSource, number}
use hotshot_query_service.FileSystem.Stored.{read_at_lem}
use hotshot_query_service.FileSystem.Queries.{get_leaf, subscribe_blocks, resolve}
use hotshot_query_service.FileSystem.Transactions.Places.{IsServing, block_at}
use hotshot_query_service.Api.{AvailabilityDataSource, file_queries, yields}
use hotshot_query_service.Api.Errors.{query_leaf, query_block}
use hotshot_query_service.Api.Handlers.{
  RequestParams, handle_getleaf, handle_streamleaves, handle_streamblockheaders, handle_getblock,
  handle_streamblocks, handle_gettransaction, handle_countproposals, handle_getproposals, header_of,
}
use hotshot_query_service.Api.Routes.{
  Handler, Options, Response, availability_routes, define_api, define_api-serves, leaf, leaves,
  headers, block, proposal_count, proposals,
}
use hotshot_query_service.Api.Transactions.{handle_gettransaction_lem}
use hotshot_query_service.ApiFiles.{Framework, load_base, merge_extensions}
use hotshot_query_service.ApiFiles.Router.{Router, RouterLaws, HasRoutes, Route}
use hotshot_query_service.ApiFiles.Toml.{Value}
use hotshot_query_service.Api.Routes.Questions.{
  Question, leaf_at, leaf_of, leaves_from, headers_from, block_at_height, block_of, blocks_from,
  transaction_named, count_of, proposals_of, route_of, Puts, IsResponse,
}

module _ (N : NodeTypes) {E : Type 0} (S : Storage N E) (lv : AppendLogLaws S.leaves)
    (bv : AppendLogLaws S.blocks) (ds : FileSystemDataSource N S) where
  module _ {R : Type 0} (req : RequestParams N R) where
    abbrev source : AvailabilityDataSource N (FileSystemDataSource N S)
    source = file_queries N S

    -- Streams are those of the subscriptions.
    leaves-IsResponse :
        (n : ℕ)
        → Puts N S lv bv ds req (leaves_from n)
        → IsResponse N S lv bv ds (leaves_from n) (leaves (handle_streamleaves N source ds req))
    unfolding handle_streamleaves yields
    leaves-IsResponse n e = rw (e, handle_streamleaves) refl

    headers_sent :
        (bs : List (BlockQueryData N))
        → map (header_of N source ds req) (map (λ b. ok b) bs) ≡ map (λ b. ok b.header) bs
    unfolding header_of
    headers_sent [] = refl
    headers_sent (b ∷ bs) = ap (◌∷◌ (ok b.header)) (headers_sent bs)

    headers-IsResponse :
        (n : ℕ)
        → Puts N S lv bv ds req (headers_from n)
        → IsResponse N S lv bv ds
            (headers_from n)
            (headers (handle_streamblockheaders N source ds req))
    unfolding handle_streamblockheaders yields
    headers-IsResponse n e = elim (Result-cases (subscribe_blocks N S ds n)) [
      | inl (sub, f) ↦
          rw (e, f, handle_streamblockheaders)
            (ap (λ g. headers (ok g)) (fun_ext λ sent. headers_sent (received sub sent)))
      | inr (x, f) ↦ rw (e, f, handle_streamblockheaders) refl
    ]

    blocks-IsResponse :
        (n : ℕ)
        → Puts N S lv bv ds req (blocks_from n)
        → IsResponse N S lv bv ds
            (blocks_from n)
            (Response.blocks (handle_streamblocks N source ds req))
    unfolding handle_streamblocks yields
    blocks-IsResponse n e = rw (e, handle_streamblocks) refl

    leaf-IsResponse :
        (n : ℕ)
        → IsSound S.leaves lv ds.leaf_storage
        → IsSettled S.leaves lv ds.leaf_storage
        → Puts N S lv bv ds req (leaf_at n)
        → IsResponse N S lv bv ds (leaf_at n) (leaf (handle_getleaf N source ds req))
    unfolding handle_getleaf get_leaf resolve
    leaf-IsResponse n sound settled (e, small) =
        rw (e, handle_getleaf)
          (ap (λ r. leaf (map_err (λ x. query_leaf x (number n)) r))
            (read_at_lem S.leaves lv ds.leaf_storage n sound settled small))

    leaf_of-IsResponse :
        (h : N.LeafHash)
        → Puts N S lv bv ds req (leaf_of h)
        → IsResponse N S lv bv ds (leaf_of h) (leaf (handle_getleaf N source ds req))
    unfolding handle_getleaf
    leaf_of-IsResponse h (e, f) = rw (e, f, handle_getleaf) refl

    block-IsResponse :
        (n : ℕ)
        → IsServing N S lv bv ds
        → Puts N S lv bv ds req (block_at_height n)
        → IsResponse N S lv bv ds (block_at_height n) (block (handle_getblock N source ds req))
    unfolding handle_getblock
    block-IsResponse n s (e, small) =
        rw (e, handle_getblock)
          (ap (λ r. block (map_err (λ x. query_block x (number n)) r))
            (block_at N S lv bv ds n s small))

    block_of-IsResponse :
        (h : N.BlockHash)
        → Puts N S lv bv ds req (block_of h)
        → IsResponse N S lv bv ds (block_of h) (block (handle_getblock N source ds req))
    unfolding handle_getblock
    block_of-IsResponse h (e, f) = rw (e, f, handle_getblock) refl

    count-IsResponse :
        (key : N.EncodedPublicKey)
        → Puts N S lv bv ds req (count_of key)
        → IsResponse N S lv bv ds
            (count_of key)
            (proposal_count (handle_countproposals N source ds req))
    unfolding handle_countproposals
    count-IsResponse key e = rw (e, handle_countproposals) refl

    proposals-IsResponse :
        (key : N.EncodedPublicKey) (limit : Option ℕ)
        → Puts N S lv bv ds req (proposals_of key limit)
        → IsResponse N S lv bv ds
            (proposals_of key limit)
            (proposals (handle_getproposals N source ds req))
    unfolding handle_getproposals
    proposals-IsResponse key limit (e, f) = rw (e, f, handle_getproposals) refl

    module _ {L : Type 0} {F : Framework L}
        {router : Router F (Handler N (FileSystemDataSource N S) R)} (laws : RouterLaws router)
        (availability_toml : String) (options : Options F) where
      -- The API is defined, and the handler of the question's route gives the response.
      abbrev pub Answers : Question N S lv bv ds → Type 0
      Answers q =
          (api : F.Api) × (h : Handler N (FileSystemDataSource N S) R) × (define_api N R source
              router availability_toml options
            ≡ ok api)
          × (laws.handlers api (route_of N S lv bv ds q) ≡ some h)
          × IsResponse N S lv bv ds q (h ds req)

      abbrev Serves : ℕ → Route (Handler N (FileSystemDataSource N S) R) → Type 0
      Serves i r =
          get_elem? (availability_routes N R source) i ≡ some r
          → (api : F.Api) × (define_api N R source router availability_toml options ≡ ok api)
            × (laws.handlers api r.name ≡ some r.handler)

      -- A route of the code answers a question whose route has its name.
      answer_at_route :
          (q : Question N S lv bv ds) (i : ℕ) (r : Route (Handler N (FileSystemDataSource N S) R))
          → Serves i r
          → get_elem? (availability_routes N R source) i ≡ some r
          → route_of N S lv bv ds q ≡ r.name
          → IsResponse N S lv bv ds q (r.handler ds req)
          → Answers q
      answer_at_route q i r serves at same good =
          let (api, e, held) = serves at in
          (api, r.handler, e, ap (laws.handlers api) same ∙ held, good)

      answer_by :
          (q : Question N S lv bv ds)
          → ((i : ℕ) (r : Route (Handler N (FileSystemDataSource N S) R)) → Serves i r)
          → IsServing N S lv bv ds
          → IsSound S.leaves lv ds.leaf_storage
          → IsSettled S.leaves lv ds.leaf_storage
          → Puts N S lv bv ds req q
          → Answers q
      answer_by (leaf_at n) serves s sound settled asked =
          answer_at_route (leaf_at n) 0 _ (serves 0 _) refl refl
            (leaf-IsResponse n sound settled asked)
      answer_by (leaf_of h) serves s sound settled asked =
          answer_at_route (leaf_of h) 0 _ (serves 0 _) refl refl (leaf_of-IsResponse h asked)
      answer_by (leaves_from n) serves s sound settled asked =
          answer_at_route (leaves_from n) 1 _ (serves 1 _) refl refl (leaves-IsResponse n asked)
      answer_by (headers_from n) serves s sound settled asked =
          answer_at_route (headers_from n) 2 _ (serves 2 _) refl refl (headers-IsResponse n asked)
      answer_by (block_at_height n) serves s sound settled asked =
          answer_at_route (block_at_height n) 3 _ (serves 3 _) refl refl
            (block-IsResponse n s asked)
      answer_by (block_of h) serves s sound settled asked =
          answer_at_route (block_of h) 3 _ (serves 3 _) refl refl (block_of-IsResponse h asked)
      answer_by (blocks_from n) serves s sound settled asked =
          answer_at_route (blocks_from n) 4 _ (serves 4 _) refl refl (blocks-IsResponse n asked)
      answer_by (transaction_named id) serves s sound settled asked =
          answer_at_route (transaction_named id) 5 _ (serves 5 _) refl refl (
            handle_gettransaction N source ds req,
            refl,
            handle_gettransaction_lem N S lv bv ds req id s asked,
          )
      answer_by (count_of key) serves s sound settled asked =
          answer_at_route (count_of key) 6 _ (serves 6 _) refl refl (count-IsResponse key asked)
      answer_by (proposals_of key limit) serves s sound settled asked =
          answer_at_route (proposals_of key limit) 7 _ (serves 7 _) refl refl
            (proposals-IsResponse key limit asked)

      -- If the base document of the availability API could be loaded, the framework accepts it
      -- with the extensions merged into it, and the routes of the code are routes of the accepted
      -- document with the methods of the code, then the availability API is defined. On a data
      -- source on files that has a well-formed leaf log with everything in front of its cache in
      -- storage, a log of blocks that is so too, with each block at its height and fewer than 2^64
      -- - 1 of them, and the indices of its objects, a request with well-formed parameters (a
      -- height below 2^64 for a leaf, a block or a transaction) is answered by the handler of the
      -- route that its question names: with the leaf or block stored at a height, what the query
      -- by hash finds, the stream of the subscription from a height (or the headers of its
      -- blocks), an answer about a transaction that is true of the stored blocks, or the proposals
      -- of a key or their number; and where a query fails, with the error that wraps its error.
      pub define_api-Answers :
          (q : Question N S lv bv ds) {base : Value L} {loaded : F.Api}
          → load_base F options.api_path availability_toml ≡ ok base
          → F.new_api (merge_extensions F base options.extensions) ≡ ok loaded
          → HasRoutes laws loaded (availability_routes N R source)
          → IsServing N S lv bv ds
          → IsSound S.leaves lv ds.leaf_storage
          → IsSettled S.leaves lv ds.leaf_storage
          → Puts N S lv bv ds req q
          → Answers q
      define_api-Answers q {base} {loaded} e f has s sound settled asked =
          let serves =
            λ (i : ℕ) (r : Route (Handler N (FileSystemDataSource N S) R))
                (at : get_elem? (availability_routes N R source) i ≡ some r).
              define_api-serves N R source laws availability_toml options i {base = base}
                {loaded = loaded} {r = r} e f has at in
          answer_by q serves s sound settled asked
