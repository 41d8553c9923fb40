-- ===== src/Extension.antt =====
-- `ExtensibleDataSource` of src/data_source/extension.rs: a data source with the user's data beside it.
-- Every operation is passed on.
pub mod Served
use hotshot_query_service.Prelude.{List, Result, Fault}
use hotshot_query_service.NodeTypes.{NodeTypes}
use hotshot_query_service.Availability.QueryData.{LeafQueryData, BlockQueryData}
use hotshot_query_service.Api.{AvailabilityDataSource}
use hotshot_query_service.Update.{UpdateAvailabilityData}
use hotshot_query_service.Update.Service.{VersionedSource, serve}

pub record ExtensibleDataSource (D U : Type 0) : Type 0 where
  pub data_source : D
  pub user_data : U

module _ {D U : Type 0} where
  unfoldable pub new : D → U → ExtensibleDataSource D U
  new d u = record { data_source = d; user_data = u }

  -- A method of the data source inside that changes it.
  abbrev pub pass_on :
      {R : Type 0} → (D → D × R) → ExtensibleDataSource D U → ExtensibleDataSource D U × R
  pass_on method self =
      let (d, res) = method self.data_source in (record self { data_source = d }, res)

  module _ (N : NodeTypes) where
    abbrev pub extended_queries :
        AvailabilityDataSource N D → AvailabilityDataSource N (ExtensibleDataSource D U)
    extended_queries inner = record {
      source_leaf = λ self id. inner.source_leaf self.data_source id;
      source_block = λ self id. inner.source_block self.data_source id;
      leaf_range = λ self start end. inner.leaf_range self.data_source start end;
      block_range = λ self start end. inner.block_range self.data_source start end;
      block_with_transaction = λ self hash. inner.block_with_transaction self.data_source hash;
      proposals = λ self proposer limit. inner.proposals self.data_source proposer limit;
      proposal_count = λ self proposer. inner.proposal_count self.data_source proposer;
      leaf_stream = λ self height. inner.leaf_stream self.data_source height;
      block_stream = λ self height. inner.block_stream self.data_source height;
    }

    abbrev pub extended_updates :
        {E : Type 0}
        → UpdateAvailabilityData N D E
        → UpdateAvailabilityData N (ExtensibleDataSource D U) E
    extended_updates inner = record {
      insert_leaf = λ self leaf. pass_on (λ d. inner.insert_leaf d leaf) self;
      insert_block = λ self block. pass_on (λ d. inner.insert_block d block) self;
    }

    abbrev pub extended_versions :
        {E : Type 0} → VersionedSource N D E → VersionedSource N (ExtensibleDataSource D U) E
    extended_versions inner = record {
      availability = extended_updates inner.availability;
      commit = λ self. pass_on inner.commit self;
      revert = λ self. pass_on inner.revert self;
    }
